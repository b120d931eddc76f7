-- ===== src/Proto/Delta/Unique.antt =====
-- A canonical segment is determined by the values of its cells.
use private_eth_getbalance_w.Prelude.{ℕ, ◌≡◌, ◌≢◌, refl, sym, subst, ◌∙◌, arith, List, [], ◌∷◌, All}
use private_eth_getbalance_w.Prelude.{
  Bool-cases, inl, inr, ◌==◌, if◌then◌else◌, ltb, ==_iff, true, dec_lt, lt→ltb,
}
use private_eth_getbalance_w.Prelude.Int.{ℤ, pos, ◌+ℤ◌, +ℤ-zero, zero-+ℤ}
use private_eth_getbalance_w.Prelude.Maps.{IsOrdered, IsAfter, IsAfter-trans, nat_key}
use private_eth_getbalance_w.Proto.Delta.{Cells, SegmentRowDeltas}
use private_eth_getbalance_w.Proto.Delta.Sums.{cells_at, rows_at}
use private_eth_getbalance_w.Proto.Delta.Canonical.{cells_at_head, IsRow, IsCanonical}

-- Ordered entries, read at a key and a place, where a good entry reads nonzero somewhere and is
-- known by what it reads.
module _ {V : Type 0} {X : Type 0} (read : V → X → ℤ) (at : ℕ → X → List (ℕ × V) → ℤ)
    (at_nil : (r : ℕ) (x : X) → at r x [] ≡ pos 0)
    (at_cons : (r : ℕ) (x : X) (k : ℕ) (v : V) (m : List (ℕ × V))
      → at r x ((k, v) ∷ m) ≡ (if k == r then read v x else pos 0) +ℤ at r x m)
    (Good : V → Type 0)
    (ext : (v w : V) → Good v → Good w → ((x : X) → read v x ≡ read w x) → v ≡ w)
    (witness : (v : V) → Good v → (x : X) × (read v x ≢ pos 0)) where
  at_after : (r : ℕ) (x : X) (m : List (ℕ × V)) → IsAfter r m → at r x m ≡ pos 0
  at_after r x [] h = at_nil r x
  at_after r x ((k, v) ∷ m) h =
      ground (arith, at_cons r x k v m, at_after r x m h.1, zero-+ℤ (at r x m))

  at_head :
      (k : ℕ) (x : X) (v : V) (m : List (ℕ × V)) → IsAfter k m → at k x ((k, v) ∷ m) ≡ read v x
  at_head k x v m h = ground (arith, at_cons k x k v m, at_after k x m h, +ℤ-zero (read v x))

  -- Before the first key everything reads zero, so a good entry cannot stand there.
  head_clash :
      (k : ℕ) (v : V) (m m' : List (ℕ × V))
      → IsAfter k m
      → IsAfter k m'
      → Good v
      → ((r : ℕ) (x : X) → at r x ((k, v) ∷ m) ≡ at r x m')
      → ⊥
  head_clash k v m m' h h' g same =
      let (x, nonzero) = witness v g in
      nonzero (sym (at_head k x v m h) ∙ same k x ∙ at_after k x m' h')

  tail_same :
      (k : ℕ) (v w : V) (m m' : List (ℕ × V))
      → IsAfter k m
      → IsAfter k m'
      → ((r : ℕ) (x : X) → at r x ((k, v) ∷ m) ≡ at r x ((k, w) ∷ m'))
      → (r : ℕ) (x : X) → at r x m ≡ at r x m'
  tail_same k v w m m' h h' same r x = elim (Bool-cases (k == r)) [
    | inl here ↦
        let e : k ≡ r = (==_iff k r).0 here in
        at_after r x m (subst (λ j. IsAfter j m) e h)
        ∙ sym (at_after r x m' (subst (λ j. IsAfter j m') e h'))
    | inr there ↦ ground (
      arith,
      same r x,
      at_cons r x k v m,
      at_cons r x k w m',
      zero-+ℤ (at r x m),
      zero-+ℤ (at r x m'),
    )
  ]

  -- Two first entries under one key are equal.
  same_key :
      (k : ℕ) (v w : V) (m m' : List (ℕ × V))
      → IsAfter k m
      → IsAfter k m'
      → Good v
      → Good w
      → ((r : ℕ) (x : X) → at r x ((k, v) ∷ m) ≡ at r x ((k, w) ∷ m'))
      → (((r : ℕ) (x : X) → at r x m ≡ at r x m') → m ≡ m')
      → (k, v) ∷ m ≡ (k, w) ∷ m'
  same_key k v w m m' h h' gv gw same tails =
      let values : v ≡ w =
        ext v w gv gw (λ x. sym (at_head k x v m h) ∙ same k x ∙ at_head k x w m' h') in
      cc (values, tails (tail_same k v w m m' h h' same))

  entries_unique :
      (m m' : List (ℕ × V))
      → IsOrdered m
      → IsOrdered m'
      → All (λ e. Good e.1) m
      → All (λ e. Good e.1) m'
      → ((r : ℕ) (x : X) → at r x m ≡ at r x m')
      → m ≡ m'
  entries_unique [] [] o o' g g' same = refl
  entries_unique [] ((k, v) ∷ m') o o' g g' same =
      absurd (head_clash k v m' [] o'.0 tt g'.0 (λ r x. sym (same r x)))
  entries_unique ((k, v) ∷ m) [] o o' g g' same = absurd (head_clash k v m [] o.0 tt g.0 same)
  entries_unique ((k, v) ∷ m) ((j, w) ∷ m') o o' g g' same = elim (dec_lt k j) [
    | yes p ↦
        let b : ltb k j ≡ true = lt→ltb k j p in
        absurd (head_clash k v m ((j, w) ∷ m') o.0 (b, IsAfter-trans k j m' b o'.0) g.0 same)
    | no p ↦ elim (dec_lt j k) [
      | yes q ↦
          let b : ltb j k ≡ true = lt→ltb j k q in
          absurd (
            head_clash j w m' ((k, v) ∷ m) o'.0 (b, IsAfter-trans j k m b o.0) g'.0
              (λ r x. sym (same r x)))
      | no q ↦
          let e : j ≡ k = omega arith in
          rw e (
            same_key k v w m m' o.0 (subst (λ i. IsAfter i m') e o'.0) g.0 g'.0
              (subst (λ i. (r : ℕ) (x : X) → at r x ((k, v) ∷ m) ≡ at r x ((i, w) ∷ m')) e same)
              (entries_unique m m' o.1 o'.1 g.1 g'.1))
    ]
  ]

cells_unique :
    (m m' : Cells)
    → IsOrdered m
    → IsOrdered m'
    → All (λ c. c.1 ≢ pos 0) m
    → All (λ c. c.1 ≢ pos 0) m'
    → ((o : ℕ) → cells_at o m ≡ cells_at o m')
    → m ≡ m'
unfolding cells_at
cells_unique m m' o o' g g' same =
    entries_unique {X = Unit {0}} (λ v _. v) (λ r _ c. cells_at r c) (λ r x. refl)
      (λ r x k v c. refl) (λ v. v ≢ pos 0) (λ v w gv gw e. e tt) (λ v g. (tt, g)) m m' o o' g g'
      (λ r x. same r)

row_witness : (cells : Cells) → IsRow cells → (o : ℕ) × (cells_at o cells ≢ pos 0)
row_witness [] row = absurd (row.inhabited refl)
row_witness ((k, d) ∷ m) row =
    (k, λ e. row.nonzero.0 (sym (cells_at_head k d m row.ascending.0) ∙ e))

-- Two canonical segments with the same value in every cell are the same list.
pub canonical_unique :
    (rows rows' : SegmentRowDeltas)
    → IsCanonical rows
    → IsCanonical rows'
    → ((r o : ℕ) → rows_at r o rows ≡ rows_at r o rows')
    → rows ≡ rows'
unfolding rows_at
canonical_unique rows rows' c c' same =
    entries_unique (λ cells o. cells_at o cells) (λ r o m. rows_at r o m) (λ r x. refl)
      (λ r x k v m. refl) IsRow
      (λ v w gv gw e. cells_unique v w gv.ascending gw.ascending gv.nonzero gw.nonzero e)
      row_witness rows rows' c.ascending c'.ascending c.each c'.each same
