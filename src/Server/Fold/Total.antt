-- ===== src/Server/Fold/Total.antt =====
-- The fold of a log whose mutations are inside the geometry does not panic.
use private_eth_getbalance_w.Prelude.{
  ℕ, zero, suc, ◌+◌, ◌*◌, ◌/◌, ◌%◌, ◌^◌, ◌≤◌, ◌<◌, ◌≡◌, ◌≢◌, refl, ◌∙◌, arith, List, [], ◌∷◌, map,
  All, length,
}
use private_eth_getbalance_w.Prelude.{
  ok, get_elem?_total, replicate, length-set, length-replicate, length-map, ltb, ◌==◌, true, false,
  Bool-cases, inl, inr,
}
use private_eth_getbalance_w.Prelude.Int.{ℤ, sub_ℕ, is_zero}
use private_eth_getbalance_w.Prelude.Maps.{get, nat_key}
use private_eth_getbalance_w.Proto.Delta.{
  SegmentRowDeltas, RowMap, SegmentMap, row_or_default, emit_rows,
}
use private_eth_getbalance_w.Server.Fold.{
  SlotMutation, CuckooParams, add_entry, add_nonzero, fold_cells, fold_mutation, fold_loop,
  fold_mutations_into_row_deltas,
}

add_nonzero_total :
    (n : ℕ) (d : ℤ) (m : RowMap) → n < 2 ^ 16 → (m' : RowMap) × (add_nonzero n d m ≡ ok m')
unfolding add_nonzero add_entry
add_nonzero_total n d m h = elim (Bool-cases (is_zero d)) [
  | inl z ↦ rw z (m, refl)
  | inr nz ↦ let fits : ltb n (2 ^ 16) ≡ true = ground arith in rw (nz, fits) (_, refl)
]

fold_cells_total :
    (base : ℕ) (old_buf new_buf : List ℕ) (left c : ℕ) (m : RowMap)
    → base + (c + left) ≤ 2 ^ 16
    → c + left ≤ length old_buf
    → c + left ≤ length new_buf
    → (m' : RowMap) × (fold_cells base old_buf new_buf left c m ≡ ok m')
unfolding fold_cells
fold_cells_total base old_buf new_buf zero c m room o n = (m, refl)
fold_cells_total base old_buf new_buf (suc left) c m room o n =
    let (new_cell, new_at) = get_elem?_total new_buf c (omega (arith, n)) in
    let (old_cell, old_at) = get_elem?_total old_buf c (omega (arith, o)) in
    let (row, added) =
      add_nonzero_total (base + c) (sub_ℕ new_cell old_cell) m (omega (arith, room)) in
    let (m', rest) =
      fold_cells_total base old_buf new_buf left (c + 1) row (omega (arith, room))
        (omega (arith, o)) (omega (arith, n)) in
    (m', rw (new_at, old_at, added) rest)

module _ (pack_slot_cells : ℕ → List ℕ → List ℕ) (params : CuckooParams) where
  -- The mutation is of a slot of the geometry, whose cells are as many as a slot has, and have u16 offsets.
  pub record IsInside (m : SlotMutation) : Type 0 where
    pub size : params.segment_size ≢ 0
    pub segment : m.bucket / params.segment_size < params.arity
    pub offsets : m.slot * params.cells_per_slot + params.cells_per_slot ≤ 2 ^ 16
    pub old_cells :
        params.cells_per_slot ≤ length (pack_slot_cells m.old_fingerprint m.old_value_cells)
    pub new_cells :
        params.cells_per_slot ≤ length (pack_slot_cells m.new_fingerprint m.new_value_cells)

  fold_mutation_total :
      (m : SlotMutation) (acc : List SegmentMap)
      → IsInside m
      → length acc ≡ params.arity
      → (acc' : List SegmentMap) × (fold_mutation pack_slot_cells params m acc ≡ ok acc')
        × (length acc' ≡ params.arity)
  unfolding fold_mutation
  fold_mutation_total m acc h n =
      let nonzero : (params.segment_size == 0) ≡ false = ground (arith, h.size) in
      let (seg, at) =
        get_elem?_total acc (m.bucket / params.segment_size) (omega (arith, h.segment, n)) in
      let (row, folded) =
        fold_cells_total (m.slot * params.cells_per_slot)
          (pack_slot_cells m.old_fingerprint m.old_value_cells)
          (pack_slot_cells m.new_fingerprint m.new_value_cells) params.cells_per_slot 0
          (row_or_default (get (m.bucket % params.segment_size) seg)) (omega (arith, h.offsets))
          (omega (arith, h.old_cells)) (omega (arith, h.new_cells)) in
      rw (nonzero, at, folded) (_, refl, length-set acc (m.bucket / params.segment_size) _ ∙ n)

  fold_loop_total :
      (muts : List SlotMutation) (acc : List SegmentMap)
      → All IsInside muts
      → length acc ≡ params.arity
      → (acc' : List SegmentMap) × (fold_loop pack_slot_cells params muts acc ≡ ok acc')
        × (length acc' ≡ params.arity)
  unfolding fold_loop
  fold_loop_total [] acc h n = (acc, refl, n)
  fold_loop_total (m ∷ muts) acc h n =
      let (mid, first, k) = fold_mutation_total m acc h.0 n in
      let (acc', rest, l) = fold_loop_total muts mid h.1 k in (acc', rw first rest, l)

  -- The edits have one list for each segment.
  pub fold_mutations_total :
      (muts : List SlotMutation)
      → All IsInside muts
      → (rows : List SegmentRowDeltas) × (fold_mutations_into_row_deltas pack_slot_cells params muts
          ≡ ok rows)
        × (length rows ≡ params.arity)
  unfolding fold_mutations_into_row_deltas
  fold_mutations_total muts h =
      let (acc, folded, n) =
        fold_loop_total muts (replicate params.arity []) h (length-replicate params.arity []) in
      (map emit_rows acc, rw folded refl, length-map acc emit_rows ∙ n)
