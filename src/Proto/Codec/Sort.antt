-- ===== src/Proto/Codec/Sort.antt =====
-- `sort_by_key`: the result ascends, has the same length, and keeps what holds of all entries.
use private_eth_getbalance_w.Prelude.{
  ℕ, suc, ◌≤◌, ◌≡◌, refl, arith, List, [], ◌∷◌, length, All, leb, Bool-cases, inl, inr,
}
use private_eth_getbalance_w.Proto.Codec.{insert_sorted, sort_by_key}

module _ {V : Type 0} where
  -- Keys that ascend, from `prev` on.
  abbrev pub IsFrom : ℕ → List (ℕ × V) → Type 0
  IsFrom prev [] = Unit
  IsFrom prev (x ∷ l) = (prev ≤ x.0) × IsFrom x.0 l

  insert-IsFrom :
      (prev : ℕ) (x : ℕ × V) (l : List (ℕ × V))
      → prev ≤ x.0
      → IsFrom prev l
      → IsFrom prev (insert_sorted x l)
  unfolding insert_sorted
  insert-IsFrom prev x [] h f = (h, tt)
  insert-IsFrom prev x (y ∷ l) h f = ground (arith, insert-IsFrom y.0 x l)

  pub sort_by_key-IsFrom : (l : List (ℕ × V)) → IsFrom 0 (sort_by_key l)
  unfolding sort_by_key
  sort_by_key-IsFrom [] = tt
  sort_by_key-IsFrom (x ∷ l) =
      insert-IsFrom 0 x (sort_by_key l) (omega arith) (sort_by_key-IsFrom l)

  length-insert_sorted :
      (x : ℕ × V) (l : List (ℕ × V)) → length (insert_sorted x l) ≡ suc (length l)
  unfolding insert_sorted
  length-insert_sorted x [] = refl
  length-insert_sorted x (y ∷ l) = ground (arith, length-insert_sorted x l)

  pub length-sort_by_key : (l : List (ℕ × V)) → length (sort_by_key l) ≡ length l
  unfolding sort_by_key
  length-sort_by_key [] = refl
  length-sort_by_key (x ∷ l) =
      omega (arith, length-insert_sorted x (sort_by_key l), length-sort_by_key l)

  module _ {κ} (P : ℕ × V → Type κ) where
    insert_sorted-All : (x : ℕ × V) (l : List (ℕ × V)) → P x → All P l → All P (insert_sorted x l)
    unfolding insert_sorted
    insert_sorted-All x [] h a = (h, tt)
    insert_sorted-All x (y ∷ l) h a = elim (Bool-cases (leb x.0 y.0)) [
      | inl b ↦ rw b (h, a)
      | inr b ↦ rw b (a.0, insert_sorted-All x l h a.1)
    ]

    pub sort_by_key-All : (l : List (ℕ × V)) → All P l → All P (sort_by_key l)
    unfolding sort_by_key
    sort_by_key-All [] a = tt
    sort_by_key-All (x ∷ l) a = insert_sorted-All x (sort_by_key l) a.0 (sort_by_key-All l a.1)
