-- ===== src/Rpc/Journal/Take.antt =====
-- A read of the first bytes of a file goes on in a file that is cut off after them.
use private_eth_getbalance_w.Prelude.{
  ℕ, zero, suc, ◌+◌, ◌-◌, ◌≤◌, ◌≡◌, refl, sym, ◌∙◌, ap, arith, List, [], ◌∷◌, false, ok, length,
  take, drop, ltb, length-take, length-drop, ok-injective, Bool-cases, inl, inr,
}
use private_eth_getbalance_w.Rpc.Journal.{take_bytes}

take-take : (n m : ℕ) (xs : List ℕ) → n ≤ m → take n (take m xs) ≡ take n xs
take-take zero m xs h = refl
take-take (suc n) zero xs h = absurd (omega (arith, h))
take-take (suc n) (suc m) [] h = refl
take-take (suc n) (suc m) (x ∷ xs) h = ap (λ l. x ∷ l) (take-take n m xs (omega (arith, h)))

take_nil : (k : ℕ) → take {A = ℕ} k [] ≡ []
take_nil zero = refl
take_nil (suc k) = refl

pub at_least : (k n : ℕ) → ltb k n ≡ false → n ≤ k
at_least k n h = ground arith

drop-take : (n m : ℕ) (xs : List ℕ) → n ≤ m → drop n (take m xs) ≡ take (m - n) (drop n xs)
drop-take zero m xs h = ap (λ k. take k xs) (omega arith)
drop-take (suc n) zero xs h = absurd (omega (arith, h))
drop-take (suc n) (suc m) [] h = sym (take_nil (suc m - suc n))
drop-take (suc n) (suc m) (x ∷ xs) h =
    drop-take n m xs (omega (arith, h)) ∙ ap (λ k. take k (drop n xs)) (omega arith)

-- A read of the first bytes is the same of a shorter list that has them.
pub take_bytes-take :
    {E : Type 0} (e : E) (n m : ℕ) (bytes xs rest : List ℕ)
    → take_bytes e n bytes ≡ ok (xs, rest)
    → n ≤ m
    → (take_bytes e n (take m bytes) ≡ ok (xs, take (m - n) rest))
      × (n + length rest ≡ length bytes)
unfolding take_bytes
take_bytes-take e n m bytes xs rest h k = elim (Bool-cases (ltb (length bytes) n)) [
  | inl short ↦ absurd (cc (rw short at h))
  | inr long ↦
      let same : (take n bytes, drop n bytes) ≡ (xs, rest) =
        ok-injective (take n bytes, drop n bytes) (xs, rest) (rw long at h) in
      let first : take n bytes ≡ xs = ap (λ p. p.0) same in
      let later : drop n bytes ≡ rest = ap (λ p. p.1) same in
      let enough : ltb (length (take m bytes)) n ≡ false = ground (arith, length-take m bytes) in
      (
        rw (enough, take-take n m bytes k, drop-take n m bytes k, first, later) refl,
        omega (arith, at_least (length bytes) n long, ap length later, length-drop n bytes),
      )
]
