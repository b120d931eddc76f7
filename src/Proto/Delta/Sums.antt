-- ===== src/Proto/Delta/Sums.antt =====
-- What a delta says of one cell, as an integer: the sum of its entries for that cell.
use private_eth_getbalance_w.Prelude.{ℕ, ◌≡◌, ◌∙◌, arith, List, [], ◌∷◌, zero, suc}
use private_eth_getbalance_w.Prelude.{
  ok, >>=-eq-ok, ok_or-eq-ok, Bool-cases, inl, inr, ◌==◌, if◌then◌else◌, ==_iff, ok_or,
}
use private_eth_getbalance_w.Prelude.Int.{
  ℤ, pos, ◌+ℤ◌, +ℤ-zero, zero-+ℤ, +ℤ_assoc, checked_add, checked_add-some,
}
use private_eth_getbalance_w.Prelude.Maps.{get, insert, get-insert, nat_key}
use private_eth_getbalance_w.Proto.Delta.{
  Cells, SegmentRowDeltas, BlockDelta, RowMap, SegmentMap, add_cells, add_rows, add_segments,
  add_deltas, value_or_zero, row_or_default, overflow,
}

unfoldable pub cells_at : ℕ → Cells → ℤ
cells_at o [] = pos 0
cells_at o ((offset, delta) ∷ cells) = (if offset == o then delta else pos 0) +ℤ cells_at o cells

unfoldable pub rows_at : ℕ → ℕ → SegmentRowDeltas → ℤ
rows_at r o [] = pos 0
rows_at r o ((row, cells) ∷ rows) =
    (if row == r then cells_at o cells else pos 0) +ℤ rows_at r o rows

unfoldable pub segments_at : ℕ → ℕ → ℕ → List SegmentRowDeltas → ℤ
segments_at s r o [] = pos 0
segments_at zero r o (seg ∷ segs) = rows_at r o seg
segments_at (suc s) r o (seg ∷ segs) = segments_at s r o segs

-- The sum over a run of deltas.
unfoldable pub run_at : ℕ → ℕ → ℕ → List BlockDelta → ℤ
run_at s r o [] = pos 0
run_at s r o (d ∷ ds) = segments_at s r o d.per_segment +ℤ run_at s r o ds

-- The same of the accumulators.
unfoldable pub value_at : ℕ → RowMap → ℤ
value_at o m = value_or_zero (get o m)

unfoldable pub entry_at : ℕ → ℕ → SegmentMap → ℤ
unfolding value_at
entry_at r o m = value_at o (row_or_default (get r m))

pub value_at-insert :
    (o k : ℕ) (v : ℤ) (m : RowMap)
    → value_at o (insert k v m) ≡ (if k == o then v else value_at o m)
unfolding value_at
value_at-insert o k v m = ground (arith, get-insert o k v m)

pub entry_at-insert :
    (r o k : ℕ) (v : RowMap) (m : SegmentMap)
    → entry_at r o (insert k v m) ≡ (if k == r then value_at o v else entry_at r o m)
unfolding entry_at
entry_at-insert r o k v m = ground (arith, get-insert r k v m)

-- Writing the new sum of one cell adds its delta there and nothing elsewhere.
value_step :
    (o offset : ℕ) (m : RowMap) (delta sum c : ℤ)
    → sum ≡ value_at offset m +ℤ delta
    → value_at o (insert offset sum m) +ℤ c
      ≡ value_at o m +ℤ ((if offset == o then delta else pos 0) +ℤ c)
value_step o offset m delta sum c e =
    rw (value_at-insert o offset sum m) (elim (Bool-cases (offset == o)) [
      | inl same ↦
          let at : offset ≡ o = (==_iff offset o).0 same in
          rw (same, e, at) (+ℤ_assoc (value_at o m) delta c)
      | inr other ↦ rw (other, zero-+ℤ c)
    ])

pub add_cells_at :
    (o : ℕ) (m m' : RowMap) (cells : Cells)
    → add_cells m cells ≡ ok m'
    → value_at o m' ≡ value_at o m +ℤ cells_at o cells
unfolding add_cells cells_at
add_cells_at o m m' [] e = rw +ℤ-zero (cc)
add_cells_at o m m' ((offset, delta) ∷ cells) e =
    let (sum, fits, rest) =
      >>=-eq-ok (ok_or (checked_add (value_or_zero (get offset m)) delta) overflow) _ e in
    add_cells_at o (insert offset sum m) m' cells rest
    ∙ value_step o offset m delta sum (cells_at o cells)
        (unfold value_at in checked_add-some _ delta sum (ok_or-eq-ok _ overflow fits))

entry_step :
    (r o row : ℕ) (acc : SegmentMap) (row_map : RowMap) (d c : ℤ)
    → value_at o row_map ≡ value_at o (row_or_default (get row acc)) +ℤ d
    → entry_at r o (insert row row_map acc) +ℤ c
      ≡ entry_at r o acc +ℤ ((if row == r then d else pos 0) +ℤ c)
entry_step r o row acc row_map d c e =
    rw (entry_at-insert r o row row_map acc) (elim (Bool-cases (row == r)) [
      | inl same ↦
          let at : row ≡ r = (==_iff row r).0 same in
          rw (same, e, at) (unfold entry_at in +ℤ_assoc (entry_at r o acc) d c)
      | inr other ↦ rw (other, zero-+ℤ c)
    ])

pub add_rows_at :
    (r o : ℕ) (acc acc' : SegmentMap) (rows : SegmentRowDeltas)
    → add_rows acc rows ≡ ok acc'
    → entry_at r o acc' ≡ entry_at r o acc +ℤ rows_at r o rows
unfolding add_rows rows_at
add_rows_at r o acc acc' [] e = rw +ℤ-zero (cc)
add_rows_at r o acc acc' ((row, cells) ∷ rows) e =
    let (row_map, added, rest) = >>=-eq-ok (add_cells (row_or_default (get row acc)) cells) _ e in
    add_rows_at r o (insert row row_map acc) acc' rows rest
    ∙ entry_step r o row acc row_map (cells_at o cells) (rows_at r o rows)
        (add_cells_at o _ row_map cells added)

-- The accumulator's value for segment `s`.
unfoldable pub accs_at : ℕ → ℕ → ℕ → List SegmentMap → ℤ
accs_at s r o [] = pos 0
accs_at zero r o (m ∷ ms) = entry_at r o m
accs_at (suc s) r o (m ∷ ms) = accs_at s r o ms

-- A successful step over segments is one over the first and one over the others.
pub add_segments-eq-ok :
    (m : SegmentMap) (acc acc' : List SegmentMap) (seg : SegmentRowDeltas)
    (segs : List SegmentRowDeltas)
    → add_segments (m ∷ acc) (seg ∷ segs) ≡ ok acc'
    → (m' : SegmentMap) × (ms : List SegmentMap) × (add_rows m seg ≡ ok m')
      × (add_segments acc segs ≡ ok ms)
      × (m' ∷ ms ≡ acc')
unfolding add_segments
add_segments-eq-ok m acc acc' seg segs e =
    let (m', first, k) = >>=-eq-ok (add_rows m seg) _ e in
    let (ms, others, whole) = >>=-eq-ok (add_segments acc segs) _ k in (m', ms, first, others, cc)

pub add_segments-nil : (acc acc' : List SegmentMap) → add_segments acc [] ≡ ok acc' → acc ≡ acc'
unfolding add_segments
add_segments-nil [] acc' e = cc
add_segments-nil (m ∷ acc) acc' e = cc

pub add_segments_at :
    (s r o : ℕ) (acc acc' : List SegmentMap) (segs : List SegmentRowDeltas)
    → add_segments acc segs ≡ ok acc'
    → accs_at s r o acc' ≡ accs_at s r o acc +ℤ segments_at s r o segs
unfolding segments_at accs_at
add_segments_at s r o acc acc' [] e = rw (+ℤ-zero, add_segments-nil acc acc' e)
add_segments_at s r o [] acc' (seg ∷ segs) e = unfold add_segments in cc
add_segments_at zero r o (m ∷ acc) acc' (seg ∷ segs) e =
    let (m', ms, first, others, whole) = add_segments-eq-ok m acc acc' seg segs e in
    rw (← whole) (add_rows_at r o m m' seg first)
add_segments_at (suc s) r o (m ∷ acc) acc' (seg ∷ segs) e =
    let (m', ms, first, others, whole) = add_segments-eq-ok m acc acc' seg segs e in
    rw (← whole) (add_segments_at s r o acc ms segs others)

pub add_deltas_at :
    (s r o : ℕ) (acc acc' : List SegmentMap) (ds : List BlockDelta)
    → add_deltas acc ds ≡ ok acc'
    → accs_at s r o acc' ≡ accs_at s r o acc +ℤ run_at s r o ds
unfolding add_deltas run_at
add_deltas_at s r o acc acc' [] e = rw +ℤ-zero (cc)
add_deltas_at s r o acc acc' (d ∷ ds) e =
    let (mid, first, rest) = >>=-eq-ok (add_segments acc d.per_segment) _ e in
    add_deltas_at s r o mid acc' ds rest
    ∙ rw (add_segments_at s r o acc mid d.per_segment first, +ℤ_assoc)
