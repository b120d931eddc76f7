-- ===== src/Server/Fold/Canonical.antt =====
-- The edits that a log is folded into are in canonical form.
use private_eth_getbalance_w.Prelude.{
  ℕ, zero, suc, ◌+◌, ◌/◌, ◌%◌, ◌^◌, ◌≡◌, refl, subst, ◌∙◌, List, [], ◌∷◌, map, All, length,
}
use private_eth_getbalance_w.Prelude.{
  ok, >>=-eq-ok, ok-injective, or_panic, get_elem?, set, replicate, length-set, length-replicate,
  length-map, ltb, Bool-cases, inl, inr, ◌==◌,
}
use private_eth_getbalance_w.Prelude.Int.{ℤ, sub_ℕ, is_zero}
use private_eth_getbalance_w.Prelude.Maps.{get, insert-IsOrdered, IsOrdered, nat_key}
use private_eth_getbalance_w.Proto.Delta.{
  SegmentRowDeltas, RowMap, SegmentMap, row_or_default, emit_rows,
}
use private_eth_getbalance_w.Proto.Delta.Ordered.{
  IsSegmentOrdered, replicate-IsSegmentOrdered, row_or_default-IsOrdered, insert-All,
}
use private_eth_getbalance_w.Proto.Delta.Canonical.{IsCanonical, emit_rows-IsCanonical}
use private_eth_getbalance_w.Server.Fold.{
  SlotMutation, CuckooParams, add_entry, add_nonzero, fold_cells, fold_mutation, fold_loop,
  fold_mutations_into_row_deltas,
}

add_entry-IsOrdered :
    (o : ℕ) (d : ℤ) (m m' : RowMap) → add_entry o d m ≡ ok m' → IsOrdered m → IsOrdered m'
unfolding add_entry
add_entry-IsOrdered o d m m' e h = elim (Bool-cases (ltb o (2 ^ 16))) [
  | inl fits ↦
      let at : _ ≡ m' = ok-injective _ m' (rw fits at e) in rw (← at) (insert-IsOrdered o _ m h)
  | inr wide ↦ absurd (cc (rw wide at e))
]

add_nonzero-IsOrdered :
    (o : ℕ) (d : ℤ) (m m' : RowMap) → add_nonzero o d m ≡ ok m' → IsOrdered m → IsOrdered m'
unfolding add_nonzero
add_nonzero-IsOrdered o d m m' e h = elim (Bool-cases (is_zero d)) [
  | inl z ↦ let at : m ≡ m' = ok-injective m m' (rw z at e) in rw (← at) h
  | inr nz ↦ add_entry-IsOrdered o d m m' (rw nz at e) h
]

fold_cells-IsOrdered :
    (base : ℕ) (old_buf new_buf : List ℕ) (left c : ℕ) (m m' : RowMap)
    → fold_cells base old_buf new_buf left c m ≡ ok m'
    → IsOrdered m
    → IsOrdered m'
unfolding fold_cells
fold_cells-IsOrdered base old_buf new_buf zero c m m' e h = let at : m ≡ m' = cc in rw (← at) h
fold_cells-IsOrdered base old_buf new_buf (suc left) c m m' e h =
    let (new_cell, n, e) = >>=-eq-ok (or_panic (get_elem? new_buf c)) _ e in
    let (old_cell, o, e) = >>=-eq-ok (or_panic (get_elem? old_buf c)) _ e in
    let (row, added, rest) = >>=-eq-ok (add_nonzero (base + c) (sub_ℕ new_cell old_cell) m) _ e in
    fold_cells-IsOrdered base old_buf new_buf left (c + 1) row m' rest
      (add_nonzero-IsOrdered (base + c) (sub_ℕ new_cell old_cell) m row added h)

set-All :
    {A : Type 0} (P : A → Type 0) (xs : List A) (i : ℕ) (v : A)
    → P v
    → All P xs
    → All P (set xs i v)
set-All P [] i v p h = tt
set-All P (x ∷ xs) zero v p h = (p, h.1)
set-All P (x ∷ xs) (suc i) v p h = (h.0, set-All P xs i v p h.1)

get_elem?-All :
    {A : Type 0} (P : A → Type 0) (xs : List A) (i : ℕ) (v : A)
    → or_panic {E = ⊥} (get_elem? xs i) ≡ ok v
    → All P xs
    → P v
get_elem?-All P [] i v e h = cc
get_elem?-All P (x ∷ xs) zero v e h = subst P (ok-injective x v e) h.0
get_elem?-All P (x ∷ xs) (suc i) v e h = get_elem?-All P xs i v e h.1

module _ (pack_slot_cells : ℕ → List ℕ → List ℕ) (params : CuckooParams) where
  fold_mutation-IsSegmentOrdered :
      (m : SlotMutation) (acc acc' : List SegmentMap)
      → fold_mutation pack_slot_cells params m acc ≡ ok acc'
      → All IsSegmentOrdered acc
      → (All IsSegmentOrdered acc') × (length acc' ≡ length acc)
  unfolding fold_mutation
  fold_mutation-IsSegmentOrdered m acc acc' e h = elim (Bool-cases (params.segment_size == 0)) [
    | inl zero_size ↦ absurd (cc (rw zero_size at e))
    | inr sized ↦
        let e = rw sized at e in
        let (seg, found, e) =
          >>=-eq-ok (or_panic (get_elem? acc (m.bucket / params.segment_size))) _ e in
        let old = row_or_default (get (m.bucket % params.segment_size) seg) in
        let (row, folded, whole) = >>=-eq-ok (fold_cells _ _ _ _ 0 old) _ e in
        let (o, each) = get_elem?-All IsSegmentOrdered acc _ seg found h in
        let row_ordered =
          fold_cells-IsOrdered _ _ _ _ 0 old row folded
            (row_or_default-IsOrdered (m.bucket % params.segment_size) seg each) in
        let at = ok-injective _ acc' whole in
        rw (← at) (
          set-All IsSegmentOrdered acc _ _
              (
                insert-IsOrdered (m.bucket % params.segment_size) row seg o,
                insert-All (m.bucket % params.segment_size) row seg row_ordered each,
              )
              h,
          length-set acc _ _,
        )
  ]

  pub fold_loop-IsSegmentOrdered :
      (muts : List SlotMutation) (acc acc' : List SegmentMap)
      → fold_loop pack_slot_cells params muts acc ≡ ok acc'
      → All IsSegmentOrdered acc
      → (All IsSegmentOrdered acc') × (length acc' ≡ length acc)
  unfolding fold_loop
  fold_loop-IsSegmentOrdered [] acc acc' e h = let at : acc ≡ acc' = cc in rw (← at) (h, refl)
  fold_loop-IsSegmentOrdered (m ∷ muts) acc acc' e h =
      let (mid, first, rest) = >>=-eq-ok (fold_mutation pack_slot_cells params m acc) _ e in
      let (o, n) = fold_mutation-IsSegmentOrdered m acc mid first h in
      let (o', n') = fold_loop-IsSegmentOrdered muts mid acc' rest o in (o', n' ∙ n)

  emitted-IsCanonical :
      (acc : List SegmentMap) → All IsSegmentOrdered acc → All IsCanonical (map emit_rows acc)
  emitted-IsCanonical [] h = tt
  emitted-IsCanonical (m ∷ acc) h = (emit_rows-IsCanonical m h.0, emitted-IsCanonical acc h.1)

  -- What a mutation log is folded into has one list of edits per segment of the geometry, each in
  -- canonical form: rows and offsets ascend strictly, no edit is 0, and no row is empty.
  pub fold-IsCanonical :
      (muts : List SlotMutation) (out : List SegmentRowDeltas)
      → fold_mutations_into_row_deltas pack_slot_cells params muts ≡ ok out
      → (length out ≡ params.arity) × All IsCanonical out
  unfolding fold_mutations_into_row_deltas
  fold-IsCanonical muts out e =
      let (acc, folded, whole) =
        >>=-eq-ok (fold_loop pack_slot_cells params muts (replicate params.arity [])) _ e in
      let (o, n) =
        fold_loop-IsSegmentOrdered muts (replicate params.arity []) acc folded
          (replicate-IsSegmentOrdered params.arity) in
      let at = ok-injective (map emit_rows acc) out whole in
      rw (← at)
        (length-map acc emit_rows ∙ n ∙ length-replicate params.arity [], emitted-IsCanonical acc o)
