-- ===== src/Proto/Delta/Total.antt =====
-- When `coalesce` succeeds: exactly the contiguous runs of one arity are accepted, and no sum of
-- theirs overflows while the deltas together stay below 2^63.
use private_eth_getbalance_w.Prelude.{
  ℕ, ◌+◌, ◌%◌, ◌^◌, ◌≤◌, ◌<◌, ◌≡◌, refl, ◌∙◌, arith, List, [], ◌∷◌, All, length,
}
use private_eth_getbalance_w.Prelude.{ok, some}
use private_eth_getbalance_w.Prelude.Int.{
  ℤ, ◌+ℤ◌, unsigned_abs, checked_add, checked_add_total, IsI64,
}
use private_eth_getbalance_w.Prelude.Maps.{get, insert, nat_key}
use private_eth_getbalance_w.Proto.Delta.{
  BlockDelta, SegmentMap, RowMap, Cells, SegmentRowDeltas, check_run, add_cells, add_rows,
  add_segments, add_deltas, row_or_default,
}
use private_eth_getbalance_w.Proto.Delta.Sums.{value_at, entry_at, value_at-insert, entry_at-insert}

-- The blocks go up by one from `expected`, as u64s, and all have `n` segments.
abbrev pub IsRun : ℕ → ℕ → List BlockDelta → Type 0
IsRun expected n [] = Unit
IsRun expected n (d ∷ ds) =
    (d.block ≡ expected) × (length d.per_segment ≡ n) × IsRun ((expected + 1) % 2 ^ 64) n ds

pub check_run-IsRun :
    (expected n : ℕ) (ds : List BlockDelta) → check_run expected n ds ≡ ok tt → IsRun expected n ds
unfolding check_run
check_run-IsRun expected n [] e = tt
check_run-IsRun expected n (d ∷ ds) e =
    ground (arith, check_run-IsRun ((expected + 1) % 2 ^ 64) n ds)

pub check_run_of_run :
    (expected n : ℕ) (ds : List BlockDelta) → IsRun expected n ds → check_run expected n ds ≡ ok tt
unfolding check_run
check_run_of_run expected n [] h = refl
check_run_of_run expected n (d ∷ ds) h =
    ground (arith, check_run_of_run ((expected + 1) % 2 ^ 64) n ds h.2)

-- The size of all the deltas together.
unfoldable pub mass_cells : Cells → ℕ
mass_cells [] = 0
mass_cells ((o, d) ∷ cells) = unsigned_abs d + mass_cells cells

unfoldable pub mass_rows : SegmentRowDeltas → ℕ
mass_rows [] = 0
mass_rows ((r, cells) ∷ rows) = mass_cells cells + mass_rows rows

unfoldable pub mass_segments : List SegmentRowDeltas → ℕ
mass_segments [] = 0
mass_segments (seg ∷ segs) = mass_rows seg + mass_segments segs

unfoldable pub mass : List BlockDelta → ℕ
mass [] = 0
mass (d ∷ ds) = mass_segments d.per_segment + mass ds

abbrev pub RowWithin : ℕ → RowMap → Type 0
RowWithin b m = (o : ℕ) → unsigned_abs (value_at o m) ≤ b

abbrev pub SegmentWithin : ℕ → SegmentMap → Type 0
SegmentWithin b m = (r o : ℕ) → unsigned_abs (entry_at r o m) ≤ b

abs_add : (a b : ℤ) → unsigned_abs (a +ℤ b) ≤ unsigned_abs a + unsigned_abs b
unfolding ◌+ℤ◌
abs_add a b = ground arith

abs-IsI64 : (a : ℤ) → unsigned_abs a < 2 ^ 63 → IsI64 a
abs-IsI64 a h = ground arith

insert-RowWithin :
    (b offset : ℕ) (v : ℤ) (m : RowMap)
    → RowWithin b m
    → (c : ℕ) → b ≤ c
    → unsigned_abs v ≤ c
    → RowWithin c (insert offset v m)
insert-RowWithin b offset v m h c le hv o = ground (arith, h o, value_at-insert o offset v m)

add_cells_step :
    (offset : ℕ) (d sum : ℤ) (m : RowMap) (cells : Cells)
    → checked_add (value_at offset m) d ≡ some sum
    → add_cells m ((offset, d) ∷ cells) ≡ add_cells (insert offset sum m) cells
unfolding add_cells value_at
add_cells_step offset d sum m cells e = rw e

add_rows_step :
    (row : ℕ) (cells : Cells) (row_map : RowMap) (acc : SegmentMap) (rows : SegmentRowDeltas)
    → add_cells (row_or_default (get row acc)) cells ≡ ok row_map
    → add_rows acc ((row, cells) ∷ rows) ≡ add_rows (insert row row_map acc) rows
unfolding add_rows
add_rows_step row cells row_map acc rows e = rw e

add_cells_total :
    (b : ℕ) (m : RowMap) (cells : Cells)
    → RowWithin b m
    → b + mass_cells cells < 2 ^ 63
    → (m' : RowMap) × (add_cells m cells ≡ ok m') × RowWithin (b + mass_cells cells) m'
unfolding add_cells mass_cells
add_cells_total b m [] h fits = (m, refl, λ o. omega (arith, h o))
add_cells_total b m ((offset, d) ∷ cells) h fits =
    let old : ℤ = value_at offset m in
    let small : unsigned_abs (old +ℤ d) ≤ b + unsigned_abs d =
      omega (arith, abs_add old d, h offset) in
    let sum : checked_add old d ≡ some (old +ℤ d) =
      checked_add_total old d (abs-IsI64 (old +ℤ d) (omega arith)) in
    let m' : RowMap = insert offset (old +ℤ d) m in
    let (out, run, within) =
      add_cells_total (b + unsigned_abs d) m' cells
        (insert-RowWithin b offset _ m h (b + unsigned_abs d) (omega arith) small) (omega arith) in
    (out, add_cells_step offset d _ m cells sum ∙ run, λ o. omega (arith, within o))

insert-SegmentWithin :
    (b row : ℕ) (v : RowMap) (m : SegmentMap)
    → SegmentWithin b m
    → (c : ℕ) → b ≤ c
    → RowWithin c v
    → SegmentWithin c (insert row v m)
insert-SegmentWithin b row v m h c le hv r o =
    ground (arith, h r o, hv o, entry_at-insert r o row v m)

add_rows_total :
    (b : ℕ) (m : SegmentMap) (rows : SegmentRowDeltas)
    → SegmentWithin b m
    → b + mass_rows rows < 2 ^ 63
    → (m' : SegmentMap) × (add_rows m rows ≡ ok m') × SegmentWithin (b + mass_rows rows) m'
unfolding mass_rows
add_rows_total b m [] h fits = (m, unfold add_rows in refl, λ r o. omega (arith, h r o))
add_rows_total b m ((row, cells) ∷ rows) h fits =
    let (row_map, added, small) =
      add_cells_total b (row_or_default (get row m)) cells (unfold entry_at in h row)
        (omega arith) in
    let next : SegmentMap = insert row row_map m in
    let (out, run, within) =
      add_rows_total (b + mass_cells cells) next rows
        (insert-SegmentWithin b row row_map m h (b + mass_cells cells) (omega arith) small)
        (omega arith) in
    (out, add_rows_step row cells row_map m rows added ∙ run, λ r o. omega (arith, within r o))

add_segments_total :
    (b : ℕ) (acc : List SegmentMap) (segs : List SegmentRowDeltas)
    → All (SegmentWithin b) acc
    → length segs ≡ length acc
    → b + mass_segments segs < 2 ^ 63
    → (acc' : List SegmentMap) × (add_segments acc segs ≡ ok acc')
      × All (SegmentWithin (b + mass_segments segs)) acc'
      × (length acc' ≡ length acc)
unfolding add_segments mass_segments
add_segments_total b [] [] h len fits = ([], refl, tt, refl)
add_segments_total b [] (seg ∷ segs) h len fits = absurd (omega arith)
add_segments_total b (m ∷ acc) [] h len fits = absurd (omega arith)
add_segments_total b (m ∷ acc) (seg ∷ segs) h len fits =
    let (m', first, within) = add_rows_total b m seg h.0 (omega arith) in
    let (ms, others, rest, size) = add_segments_total b acc segs h.1 (omega arith) (omega arith) in
    (
      m' ∷ ms,
      rw (first, others),
      ((λ r o. omega (arith, within r o)), All-within ms _ _ (omega arith) rest),
      omega arith,
    )
  where
    All-within :
        (ms : List SegmentMap) (p q : ℕ)
        → p ≤ q
        → All (SegmentWithin p) ms
        → All (SegmentWithin q) ms
    All-within [] p q le hs = tt
    All-within (n ∷ ns) p q le hs = ((λ r o. omega (arith, hs.0 r o)), All-within ns p q le hs.1)

pub add_deltas_total :
    (b expected : ℕ) (acc : List SegmentMap) (ds : List BlockDelta)
    → All (SegmentWithin b) acc
    → IsRun expected (length acc) ds
    → b + mass ds < 2 ^ 63
    → (acc' : List SegmentMap) × (add_deltas acc ds ≡ ok acc')
unfolding add_deltas mass
add_deltas_total b expected acc [] h run fits = (acc, refl)
add_deltas_total b expected acc (d ∷ ds) h run fits =
    let (mid, first, within, size) = add_segments_total b acc d.per_segment h run.1 (omega arith) in
    let (out, rest) =
      add_deltas_total (b + mass_segments d.per_segment) ((expected + 1) % 2 ^ 64) mid ds within
        (rw size run.2) (omega arith) in
    (out, rw (first, rest))
