-- ===== src/Client/Pending.antt =====
-- crates/risepir-client/src/delta.rs: the public delta accumulated since the pinned hint.
pub mod Sums
pub mod Invariant
pub mod Ingest
pub mod Rows
use private_eth_getbalance_w.Prelude.{
  ℕ, ◌-◌, ◌+◌, ◌^◌, List, [], ◌∷◌, ◌++◌, Bool, not, ◌&&◌, Option, none, some,
}
use private_eth_getbalance_w.Prelude.{
  Outcome, ok, err, panic, length, replicate, get_elem?, ltb, leb, ◌==◌, if◌then◌else◌, or_panic,
}
use private_eth_getbalance_w.Prelude.Int.{ℤ, is_zero, checked_add}
use private_eth_getbalance_w.Prelude.Maps.{BTreeMap, get, insert, remove, pair_key, pair_before}
use private_eth_getbalance_w.Proto.Delta.{BlockDelta, Cells, SegmentRowDeltas}

-- The errors of crates/risepir-client/src/error.rs.
pub data ClientError : Type 0 where
  non_contiguous_delta segment_count_mismatch gc_target_mismatch malformed_response
        response_block_mismatch :
      ℕ → ℕ → ClientError
  delta_overflow key_context_mismatch : ClientError
  cell_out_of_range : ℕ → ℕ → ℕ → ClientError

abbrev pub PendingMap : Type 0
PendingMap = BTreeMap (ℕ × ℕ) ℤ

pub record PendingDelta : Type 0 where
  pub per_segment : List PendingMap
  pub head : ℕ

unfoldable pub new : ℕ → ℕ → PendingDelta
new arity head = record { per_segment = replicate arity []; head = head }

-- A loop that mutates a state in place: it ends, it returns `DeltaOverflow` and leaves what it had
-- written so far, or it panics.
pub data Run (S : Type 0) : Type 0 where
  done : S → Run S
  overflowed : S → Run S
  panicked : Run S

-- `Entry::Vacant`: written unless the delta is 0. `Entry::Occupied`: removed at sum 0.
unfoldable pub write_vacant : ℕ × ℕ → ℤ → PendingMap → Run PendingMap
write_vacant key delta m = if is_zero delta then done m else done (insert key delta m)

unfoldable pub write_occupied : ℕ × ℕ → Option ℤ → PendingMap → Run PendingMap
write_occupied key none m = overflowed m
write_occupied key (some sum) m =
    if is_zero sum then done (remove key m) else done (insert key sum m)

unfoldable pub ingest_cell : ℕ → ℕ → ℤ → PendingMap → Run PendingMap
unfolding write_vacant write_occupied
ingest_cell row off delta m = elim (get (row, off) m) [
  | none ↦ write_vacant (row, off) delta m
  | some v ↦ write_occupied (row, off) (checked_add v delta) m
]

-- Sequencing: what follows runs on the state of a loop that ended.
abbrev pub and_then : {S : Type 0} → Run S → (S → Run S) → Run S
and_then (done s) f = f s
and_then (overflowed s) f = overflowed s
and_then panicked f = panicked

unfoldable pub ingest_cells : ℕ → Cells → PendingMap → Run PendingMap
ingest_cells row [] m = done m
ingest_cells row ((off, delta) ∷ cells) m =
    and_then (ingest_cell row off delta m) (ingest_cells row cells)

unfoldable pub ingest_rows : SegmentRowDeltas → PendingMap → Run PendingMap
ingest_rows [] m = done m
ingest_rows ((row, cells) ∷ rows) m = and_then (ingest_cells row cells m) (ingest_rows rows)

-- The state of the loop over the segments, where segment `m` stands before `ms`.
abbrev pub in_front :
    Run PendingMap → List PendingMap → (PendingMap → Run (List PendingMap)) → Run (List PendingMap)
in_front (done m) ms f = f m
in_front (overflowed m) ms f = overflowed (m ∷ ms)
in_front panicked ms f = panicked

abbrev pub cons_run : PendingMap → Run (List PendingMap) → Run (List PendingMap)
cons_run m (done ms) = done (m ∷ ms)
cons_run m (overflowed ms) = overflowed (m ∷ ms)
cons_run m panicked = panicked

unfoldable pub ingest_segments : List SegmentRowDeltas → List PendingMap → Run (List PendingMap)
ingest_segments [] ms = done ms
ingest_segments (rows ∷ segs) [] = panicked
ingest_segments (rows ∷ segs) (m ∷ ms) =
    let others = ingest_segments segs ms in
    in_front (ingest_rows rows m) ms (λ m'. cons_run m' others)

-- What `ingest` leaves behind, and what it returns.
abbrev pub finish_ingest :
    PendingDelta → ℕ → Run (List PendingMap) → PendingDelta × Outcome ClientError (Unit {0})
finish_ingest p block (done ms) = (record { per_segment = ms; head = block }, ok tt)
finish_ingest p block (overflowed ms) = (record p { per_segment = ms }, err delta_overflow)
finish_ingest p block panicked = (p, panic)

unfoldable pub ingest : BlockDelta → PendingDelta → PendingDelta × Outcome ClientError (Unit {0})
ingest d p =
    if leb d.block p.head
    then (p, err (non_contiguous_delta p.head d.block))
    else if not (length d.per_segment == length p.per_segment)
    then (p, err (segment_count_mismatch (length p.per_segment) (length d.per_segment)))
    else finish_ingest p d.block (ingest_segments d.per_segment p.per_segment)

abbrev pub sum_lengths : List PendingMap → ℕ
sum_lengths [] = 0
sum_lengths (m ∷ ms) = length m + sum_lengths ms

unfoldable pub cells : PendingDelta → ℕ
cells p = sum_lengths p.per_segment

unfoldable pub segment : PendingDelta → ℕ → Outcome ClientError PendingMap
segment p seg = or_panic (get_elem? p.per_segment seg)

-- `.range((row, 0)..=(row, u16::MAX))`, with the row dropped from the keys.
unfoldable pub row_range : ℕ → PendingMap → Cells
row_range row [] = []
row_range row ((k, d) ∷ m) =
    let rest = row_range row m in
    if not (pair_before k (row, 0)) && not (pair_before (row, 2 ^ 16 - 1) k)
    then (k.1, d) ∷ rest
    else rest

-- One round of `as_row_deltas`: the cell joins the last row if that is its own.
unfoldable pub push_entry : ℕ → ℕ → ℤ → SegmentRowDeltas → SegmentRowDeltas
push_entry row off delta [] = (row, (off, delta) ∷ []) ∷ []
push_entry row off delta ((last_row, cells) ∷ []) =
    if last_row == row
    then (last_row, cells ++ ((off, delta) ∷ [])) ∷ []
    else (last_row, cells) ∷ ((row, (off, delta) ∷ []) ∷ [])
push_entry row off delta (r ∷ (s ∷ rows)) = r ∷ push_entry row off delta (s ∷ rows)

unfoldable pub group_rows : SegmentRowDeltas → PendingMap → SegmentRowDeltas
group_rows out [] = out
group_rows out ((k, delta) ∷ m) = group_rows (push_entry k.0 k.1 delta out) m

unfoldable pub as_row_deltas : PendingMap → SegmentRowDeltas
unfolding group_rows
as_row_deltas m = group_rows [] m
