-- ===== src/Proto/Delta.antt =====
-- crates/risepir-proto/src/types.rs: the delta types, and `BlockDelta::coalesce`.
pub mod Sums
pub mod Ordered
pub mod Canonical
pub mod Unique
pub mod Total
pub mod Accept
pub mod Coalesce
pub mod Stages
use private_eth_getbalance_w.Prelude.{
  ℕ, zero, suc, ◌+◌, ◌%◌, ◌^◌, List, [], ◌∷◌, map, Bool, true, false, not,
}
use private_eth_getbalance_w.Prelude.{
  Option, none, some, Outcome, ok, err, panic, ok_or, ◌>>=◌, ◌>>◌,
}
use private_eth_getbalance_w.Prelude.{length, replicate, ◌==◌, if◌then◌else◌}
use private_eth_getbalance_w.Prelude.Int.{ℤ, pos, checked_add, is_zero}
use private_eth_getbalance_w.Prelude.Maps.{BTreeMap, get, insert, nat_key}

-- The 32 bytes of an address hash are a number; a balance is a u128.
abbrev pub AddressHash : Type 0
AddressHash = ℕ

abbrev pub Balance : Type 0
Balance = ℕ

pub record BlockUpdate : Type 0 where
  pub block : ℕ
  pub changes : List (AddressHash × Balance)
  pub credits : List (AddressHash × Balance)

abbrev pub Cells : Type 0
Cells = List (ℕ × ℤ)

abbrev pub SegmentRowDeltas : Type 0
SegmentRowDeltas = List (ℕ × Cells)

pub record BlockDelta : Type 0 where
  pub block : ℕ
  pub per_segment : List SegmentRowDeltas

pub data CoalesceError : Type 0 where
  empty : CoalesceError
  non_contiguous : ℕ → ℕ → CoalesceError
  segment_count_mismatch : ℕ → ℕ → CoalesceError
  overflow : CoalesceError

-- `(first.block..).zip(deltas.iter())`: the expected block goes up by one, as a u64.
unfoldable pub check_run : ℕ → ℕ → List BlockDelta → Outcome CoalesceError (Unit {0})
check_run expected num_segments [] = ok tt
check_run expected num_segments (d ∷ ds) =
    let rest = check_run ((expected + 1) % 2 ^ 64) num_segments ds in
    if not (d.block == expected)
    then err (non_contiguous expected d.block)
    else if not (length d.per_segment == num_segments)
    then err (segment_count_mismatch num_segments (length d.per_segment))
    else rest

abbrev pub RowMap : Type 0
RowMap = BTreeMap ℕ ℤ

abbrev pub SegmentMap : Type 0
SegmentMap = BTreeMap ℕ RowMap

-- `entry(k).or_insert(0)` and `entry(k).or_default()`: the value that the slot starts from.
abbrev pub value_or_zero : Option ℤ → ℤ
value_or_zero none = pos 0
value_or_zero (some v) = v

abbrev pub row_or_default : Option RowMap → RowMap
row_or_default none = []
row_or_default (some m) = m

unfoldable pub add_cells : RowMap → Cells → Outcome CoalesceError RowMap
add_cells row_map [] = ok row_map
add_cells row_map ((offset, delta) ∷ cells) = do
  sum ← ok_or (checked_add (value_or_zero (get offset row_map)) delta) overflow
  add_cells (insert offset sum row_map) cells

unfoldable pub add_rows : SegmentMap → SegmentRowDeltas → Outcome CoalesceError SegmentMap
add_rows acc [] = ok acc
add_rows acc ((row, cells) ∷ rows) = do
  row_map ← add_cells (row_or_default (get row acc)) cells
  add_rows (insert row row_map acc) rows

-- `acc[seg_idx]` panics where the accumulator has no such segment.
unfoldable pub add_segments :
    List SegmentMap → List SegmentRowDeltas → Outcome CoalesceError (List SegmentMap)
add_segments acc [] = ok acc
add_segments [] (seg ∷ segs) = panic
add_segments (m ∷ acc) (seg ∷ segs) = do
  m' ← add_rows m seg
  acc' ← add_segments acc segs
  ok (m' ∷ acc')

unfoldable pub add_deltas :
    List SegmentMap → List BlockDelta → Outcome CoalesceError (List SegmentMap)
add_deltas acc [] = ok acc
add_deltas acc (d ∷ ds) = do acc' ← add_segments acc d.per_segment; add_deltas acc' ds

-- `.filter(|(_, delta)| *delta != 0)`
unfoldable pub nonzero_cells : RowMap → Cells
nonzero_cells [] = []
nonzero_cells ((offset, delta) ∷ cells) =
    let rest = nonzero_cells cells in if is_zero delta then rest else (offset, delta) ∷ rest

-- Keeps a row unless it is left with no cell.
abbrev pub push_row : ℕ → Cells → SegmentRowDeltas → SegmentRowDeltas
push_row row [] rows = rows
push_row row (cell ∷ cells) rows = (row, cell ∷ cells) ∷ rows

unfoldable pub emit_rows : SegmentMap → SegmentRowDeltas
emit_rows [] = []
emit_rows ((row, cell_map) ∷ row_map) = push_row row (nonzero_cells cell_map) (emit_rows row_map)

-- `deltas.last()`, of a slice that starts with `d`.
abbrev pub last_block : BlockDelta → List BlockDelta → ℕ
last_block d [] = d.block
last_block d (e ∷ ds) = last_block e ds

unfoldable pub coalesce : List BlockDelta → Outcome CoalesceError BlockDelta
coalesce [] = err empty
coalesce (first ∷ ds) = do
  let num_segments = length first.per_segment
  check_run first.block num_segments (first ∷ ds)
  acc ← add_deltas (replicate num_segments []) (first ∷ ds)
  ok (record { block = last_block first ds; per_segment = map emit_rows acc })
