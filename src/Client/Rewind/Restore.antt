-- ===== src/Client/Rewind/Restore.antt =====
-- The rewind turns a response of the patched database back into that of the pinned one.
use private_eth_getbalance_w.Prelude.{
  ℕ, zero, suc, ◌+◌, ◌-◌, ◌*◌, ◌/◌, ◌%◌, ◌^◌, ◌<◌, ◌≡◌, ◌≢◌, refl, ◌∙◌, ap, subst, arith, List, [],
  ◌∷◌, some, inl, inr, ◌⊎◌, true, false, Bool-cases,
}
use private_eth_getbalance_w.Prelude.{
  Outcome, ok, get_elem?, set, get_or, length, length-set, All, ◌==◌, ==_iff, if◌then◌else◌,
}
use private_eth_getbalance_w.Prelude.Int.{ℤ}
use private_eth_getbalance_w.Client.Pending.{PendingMap}
use private_eth_getbalance_w.Client.Rewind.{
  low_word, rewind_term, rewind_loop, rewind_frodo, frodo_index, SimpleParams, simple_index,
  rewind_simple,
}

-- What a cell of the delta, with value `d` and at entry `at` of the response, adds to entry `c`.
abbrev pub contribution : List ℕ → ℕ × ℕ → ℤ → ℕ → ℕ
contribution b (i, at) d c = if at == c then get_or b i 0 * low_word d else 0

-- Entry `c` of `qᵀ·Δ`, where `place` tells the query's and the response's entry of a cell.
unfoldable pub product : (ℕ × ℕ → ℕ × ℕ) → List ℕ → PendingMap → ℕ → ℕ
product place b [] c = 0
product place b ((key, d) ∷ deltas) c = contribution b (place key) d c + product place b deltas c

-- The response `resp` is that of `old` with the delta's product added, modulo 2^32.
pub record IsPatched (place : ℕ × ℕ → ℕ × ℕ) (b old resp : List ℕ) (deltas : PendingMap)
    : Type 0 where
  pub size : length resp ≡ length old
  pub words : All (λ v. v < 2 ^ 32) old
  pub inside : All (λ e. ((place e.0).0 < length b) × ((place e.0).1 < length old)) deltas
  pub sums :
      (c : ℕ)
      → c < length old
      → get_or resp c 0 ≡ (get_or old c 0 + product place b deltas c) % 2 ^ 32

get_elem?-get_or : (xs : List ℕ) (i : ℕ) → i < length xs → get_elem? xs i ≡ some (get_or xs i 0)
get_elem?-get_or [] i h = absurd (omega arith)
get_elem?-get_or (x ∷ xs) zero h = refl
get_elem?-get_or (x ∷ xs) (suc i) h = get_elem?-get_or xs i (omega arith)

get_or-set_self : (xs : List ℕ) (c v : ℕ) → c < length xs → get_or (set xs c v) c 0 ≡ v
get_or-set_self [] c v h = absurd (omega arith)
get_or-set_self (x ∷ xs) zero v h = refl
get_or-set_self (x ∷ xs) (suc c) v h = get_or-set_self xs c v (omega arith)

get_or-set_ne : (xs : List ℕ) (at c v : ℕ) → at ≢ c → get_or (set xs at v) c 0 ≡ get_or xs c 0
get_or-set_ne [] at c v h = refl
get_or-set_ne (x ∷ xs) zero zero v h = absurd (h refl)
get_or-set_ne (x ∷ xs) zero (suc c) v h = refl
get_or-set_ne (x ∷ xs) (suc at) zero v h = refl
get_or-set_ne (x ∷ xs) (suc at) (suc c) v h = get_or-set_ne xs at c v (λ e. h (ap suc e))

same_entries :
    (xs ys : List ℕ)
    → length xs ≡ length ys
    → ((c : ℕ) → c < length ys → get_or xs c 0 ≡ get_or ys c 0)
    → xs ≡ ys
same_entries [] [] n h = refl
same_entries [] (y ∷ ys) n h = absurd (omega arith)
same_entries (x ∷ xs) [] n h = absurd (omega arith)
same_entries (x ∷ xs) (y ∷ ys) n h =
    let first : x ≡ y = h 0 (omega arith) in
    let others : xs ≡ ys = same_entries xs ys (omega arith) (λ c lt. h (suc c) (omega arith)) in
    λ i. first i ∷ others i

entry_word :
    (xs : List ℕ) (c : ℕ) → All (λ v. v < 2 ^ 32) xs → c < length xs → get_or xs c 0 < 2 ^ 32
entry_word [] c a h = absurd (omega arith)
entry_word (x ∷ xs) zero a h = a.0
entry_word (x ∷ xs) (suc c) a h = entry_word xs c a.1 (omega arith)

-- A term subtracted as the code does takes one contribution away.
taken :
    (old t rest : ℕ)
    → ((old + (t + rest)) % 2 ^ 32 + 2 ^ 32 - t % 2 ^ 32) % 2 ^ 32 ≡ (old + rest) % 2 ^ 32
taken old t rest = omega arith

rewind_term-IsPatched :
    (place : ℕ × ℕ → ℕ × ℕ) (b old resp : List ℕ) (key : ℕ × ℕ) (d : ℤ) (deltas : PendingMap)
    → IsPatched place b old resp ((key, d) ∷ deltas)
    → (resp' : List ℕ) × (rewind_term b resp (place key).0 (place key).1 d ≡ ok resp')
      × IsPatched place b old resp' deltas
unfolding rewind_term product
rewind_term-IsPatched place b old resp key d deltas p =
    let inside : at < length resp = omega (arith, p.inside.0.1, p.size) in
    (
      set resp at v,
      rw (get_elem?-get_or b (place key).0 p.inside.0.0, get_elem?-get_or resp at inside) refl,
      record {
        size = length-set resp at v ∙ p.size;
        words = p.words;
        inside = p.inside.1;
        sums = λ c lt. one_less c lt (Bool-cases (at == c));
      },
    )
  where
    at : ℕ
    at = (place key).1

    t : ℕ
    t = get_or b (place key).0 0 * low_word d

    v : ℕ
    v = (get_or resp at 0 + 2 ^ 32 - t % 2 ^ 32) % 2 ^ 32

    own : get_or (set resp at v) at 0 ≡ (get_or old at 0 + product place b deltas at) % 2 ^ 32
    own =
        let same : (at == at) ≡ true = ground arith in
        let before : get_or resp at 0
            ≡ (get_or old at 0 + (t + product place b deltas at)) % 2 ^ 32 =
          rw same at (p.sums at p.inside.0.1) in
        get_or-set_self resp at v (omega (arith, p.inside.0.1, p.size))
        ∙ ap (λ x. (x + 2 ^ 32 - t % 2 ^ 32) % 2 ^ 32) before
        ∙ taken (get_or old at 0) t (product place b deltas at)

    one_less :
        (c : ℕ)
        → c < length old
        → ((at == c) ≡ true) ⊎ ((at == c) ≡ false)
        → get_or (set resp at v) c 0 ≡ (get_or old c 0 + product place b deltas c) % 2 ^ 32
    one_less c lt (inl same) =
        subst
          (λ x. get_or (set resp at v) x 0 ≡ (get_or old x 0 + product place b deltas x) % 2 ^ 32)
          ((==_iff at c).0 same) own
    one_less c lt (inr other) =
        let before : get_or resp c 0 ≡ (get_or old c 0 + (0 + product place b deltas c)) % 2 ^ 32 =
          rw other at (p.sums c lt) in
        get_or-set_ne resp at c v (λ e. cc ((==_iff at c).1 e)) ∙ before ∙ omega arith

-- The loop over an index that always answers with `place`.
restored :
    (index : ℕ × ℕ → Outcome ⊥ (ℕ × ℕ)) (place : ℕ × ℕ → ℕ × ℕ) (b old resp : List ℕ)
    (deltas : PendingMap)
    → ((key : ℕ × ℕ) → index key ≡ ok (place key))
    → IsPatched place b old resp deltas
    → rewind_loop index b resp deltas ≡ ok old
unfolding rewind_loop product
restored index place b old resp [] answers p = ap ok (
    same_entries resp old p.size (λ c lt. p.sums c lt ∙ omega (arith, entry_word old c p.words lt)))
restored index place b old resp ((key, d) ∷ deltas) answers p =
    let (resp', e, p') = rewind_term-IsPatched place b old resp key d deltas p in
    rw (answers key, e) (restored index place b old resp' deltas answers p')

-- If the response is `old` plus the product of the query with the delta, modulo 2^32, and every
-- cell lies in the vectors, Frodo's rewind does not panic and gives `old` back.
pub rewind_frodo_restores :
    (b old resp : List ℕ) (deltas : PendingMap)
    → IsPatched (λ key. key) b old resp deltas
    → rewind_frodo b resp deltas ≡ ok old
unfolding rewind_frodo
rewind_frodo_restores b old resp deltas p =
    restored frodo_index (λ key. key) b old resp deltas (λ key. refl) p

-- Where a cell of the segment stands in Simple's reshaped query and response.
abbrev pub reshaped : SimpleParams → ℕ × ℕ → ℕ × ℕ
reshaped params (row, off) = (row / params.k, (row % params.k * params.row_width + off) % 2 ^ 32)

-- If `k` is not 0, the response is `old` plus the product of the query with the reshaped delta,
-- modulo 2^32, and every reshaped cell lies in the vectors, Simple's rewind does not panic and gives
-- `old` back.
pub rewind_simple_restores :
    (params : SimpleParams) (b old resp : List ℕ) (deltas : PendingMap)
    → 0 < params.k
    → IsPatched (reshaped params) b old resp deltas
    → rewind_simple params b resp deltas ≡ ok old
unfolding rewind_simple
rewind_simple_restores params b old resp deltas some_rows p =
    let nonzero : (params.k == 0) ≡ false = ground arith in
    restored (simple_index params) (reshaped params) b old resp deltas (λ key. rw nonzero refl) p
