-- ===== src/Proto/Delta/Ordered.antt =====
-- The accumulator's maps stay ordered, and what is emitted from them is canonical.
use private_eth_getbalance_w.Prelude.{ℕ, ◌≡◌, arith, List, [], ◌∷◌, zero, suc, All}
use private_eth_getbalance_w.Prelude.{ok, >>=-eq-ok, ok_or, replicate}
use private_eth_getbalance_w.Prelude.Int.{checked_add}
use private_eth_getbalance_w.Prelude.Maps.{get, insert, insert-IsOrdered, IsOrdered, nat_key}
use private_eth_getbalance_w.Proto.Delta.{
  Cells, SegmentRowDeltas, BlockDelta, RowMap, SegmentMap, add_cells, add_rows, add_segments,
  add_deltas, value_or_zero, row_or_default, overflow,
}
use private_eth_getbalance_w.Proto.Delta.Sums.{add_segments-nil, add_segments-eq-ok}

-- A segment's map is ordered, and so is each of its rows.
abbrev pub IsSegmentOrdered : SegmentMap → Type 0
IsSegmentOrdered m = IsOrdered m × All (λ e. IsOrdered e.1) m

add_cells-IsOrdered :
    (m m' : RowMap) (cells : Cells) → add_cells m cells ≡ ok m' → IsOrdered m → IsOrdered m'
unfolding add_cells
add_cells-IsOrdered m m' [] e o = let p : m ≡ m' = cc in rw (← p) o
add_cells-IsOrdered m m' ((offset, delta) ∷ cells) e o =
    let (sum, fits, rest) =
      >>=-eq-ok (ok_or (checked_add (value_or_zero (get offset m)) delta) overflow) _ e in
    add_cells-IsOrdered (insert offset sum m) m' cells rest (insert-IsOrdered offset sum m o)

pub row_or_default-IsOrdered :
    (row : ℕ) (m : SegmentMap) → All (λ e. IsOrdered e.1) m → IsOrdered (row_or_default (get row m))
unfolding get
row_or_default-IsOrdered row [] h = tt
row_or_default-IsOrdered row ((j, r) ∷ m) h = ground (arith, row_or_default-IsOrdered row m h.1)

pub insert-All :
    (row : ℕ) (r : RowMap) (m : SegmentMap)
    → IsOrdered r
    → All (λ e. IsOrdered e.1) m
    → All (λ e. IsOrdered e.1) (insert row r m)
unfolding insert
insert-All row r [] o h = (o, tt)
insert-All row r ((j, s) ∷ m) o h = ground (arith, insert-All row r m o h.1)

add_rows-IsSegmentOrdered :
    (m m' : SegmentMap) (rows : SegmentRowDeltas)
    → add_rows m rows ≡ ok m'
    → IsSegmentOrdered m
    → IsSegmentOrdered m'
unfolding add_rows
add_rows-IsSegmentOrdered m m' [] e o = let p : m ≡ m' = cc in rw (← p) o
add_rows-IsSegmentOrdered m m' ((row, cells) ∷ rows) e (o, h) =
    let (r, added, rest) = >>=-eq-ok (add_cells (row_or_default (get row m)) cells) _ e in
    let r_ordered : IsOrdered r =
      add_cells-IsOrdered _ r cells added (row_or_default-IsOrdered row m h) in
    add_rows-IsSegmentOrdered (insert row r m) m' rows rest
      (insert-IsOrdered row r m o, insert-All row r m r_ordered h)

pub add_segments-IsSegmentOrdered :
    (acc acc' : List SegmentMap) (segs : List SegmentRowDeltas)
    → add_segments acc segs ≡ ok acc'
    → All IsSegmentOrdered acc
    → All IsSegmentOrdered acc'
add_segments-IsSegmentOrdered acc acc' [] e h = rw (add_segments-nil acc acc' e) at h
add_segments-IsSegmentOrdered [] acc' (seg ∷ segs) e h = unfold add_segments in cc
add_segments-IsSegmentOrdered (m ∷ acc) acc' (seg ∷ segs) e h =
    let (m', ms, first, others, whole) = add_segments-eq-ok m acc acc' seg segs e in
    rw (← whole) (
      add_rows-IsSegmentOrdered m m' seg first h.0,
      add_segments-IsSegmentOrdered acc ms segs others h.1,
    )

pub add_deltas-IsSegmentOrdered :
    (acc acc' : List SegmentMap) (ds : List BlockDelta)
    → add_deltas acc ds ≡ ok acc'
    → All IsSegmentOrdered acc
    → All IsSegmentOrdered acc'
unfolding add_deltas
add_deltas-IsSegmentOrdered acc acc' [] e h = let p : acc ≡ acc' = cc in rw (← p) h
add_deltas-IsSegmentOrdered acc acc' (d ∷ ds) e h =
    let (mid, first, rest) = >>=-eq-ok (add_segments acc d.per_segment) _ e in
    add_deltas-IsSegmentOrdered mid acc' ds rest
      (add_segments-IsSegmentOrdered acc mid d.per_segment first h)

pub replicate-IsSegmentOrdered : (n : ℕ) → All IsSegmentOrdered (replicate n [])
replicate-IsSegmentOrdered zero = tt
replicate-IsSegmentOrdered (suc n) = ((tt, tt), replicate-IsSegmentOrdered n)
