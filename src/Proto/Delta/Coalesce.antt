-- ===== src/Proto/Delta/Coalesce.antt =====
-- `BlockDelta::coalesce` against the sum of the deltas cell by cell.
use private_eth_getbalance_w.Prelude.{
  ℕ, ◌≡◌, refl, ◌∙◌, List, [], ◌∷◌, zero, suc, map, All, length, replicate,
}
use private_eth_getbalance_w.Prelude.{ok, >>=-eq-ok}
use private_eth_getbalance_w.Prelude.Int.{pos, zero-+ℤ}
use private_eth_getbalance_w.Prelude.Maps.{get, nat_key}
use private_eth_getbalance_w.Proto.Delta.{
  BlockDelta, SegmentMap, check_run, add_deltas, emit_rows, last_block, coalesce,
}
use private_eth_getbalance_w.Proto.Delta.Sums.{
  segments_at, run_at, accs_at, entry_at, value_at, add_deltas_at,
}
use private_eth_getbalance_w.Proto.Delta.Ordered.{
  IsSegmentOrdered, add_deltas-IsSegmentOrdered, replicate-IsSegmentOrdered,
}
use private_eth_getbalance_w.Proto.Delta.Canonical.{
  IsCanonical, emit_rows_at, emit_rows-IsCanonical,
}

-- The parts of a successful run.
pub record Parts (first : BlockDelta) (ds : List BlockDelta) (d : BlockDelta) : Type 0 where
  pub acc : List SegmentMap
  pub checked : check_run first.block (length first.per_segment) (first ∷ ds) ≡ ok tt
  pub added : add_deltas (replicate (length first.per_segment) []) (first ∷ ds) ≡ ok acc
  pub emitted : d ≡ record { block = last_block first ds; per_segment = map emit_rows acc }

pub parts_of :
    (first : BlockDelta) (ds : List BlockDelta) (d : BlockDelta)
    → coalesce (first ∷ ds) ≡ ok d
    → Parts first ds d
unfolding coalesce
parts_of first ds d e =
    let (u, checked, k) =
      >>=-eq-ok (check_run first.block (length first.per_segment) (first ∷ ds)) _ e in
    let (acc, added, done) =
      >>=-eq-ok (add_deltas (replicate (length first.per_segment) []) (first ∷ ds)) _ k in
    record { acc = acc; checked = checked; added = added; emitted = cc }

-- Empty accumulators hold 0 everywhere.
pub replicate_at : (n s r o : ℕ) → accs_at s r o (replicate n []) ≡ pos 0
unfolding accs_at entry_at value_at get
replicate_at zero s r o = refl
replicate_at (suc n) zero r o = refl
replicate_at (suc n) (suc s) r o = replicate_at n s r o

pub emit_at :
    (s r o : ℕ) (acc : List SegmentMap)
    → All IsSegmentOrdered acc
    → segments_at s r o (map emit_rows acc) ≡ accs_at s r o acc
unfolding segments_at accs_at
emit_at s r o [] h = refl
emit_at zero r o (m ∷ acc) h = emit_rows_at r o m h.0
emit_at (suc s) r o (m ∷ acc) h = emit_at s r o acc h.1

emit-IsCanonical :
    (acc : List SegmentMap) → All IsSegmentOrdered acc → All IsCanonical (map emit_rows acc)
emit-IsCanonical [] h = tt
emit-IsCanonical (m ∷ acc) h = (emit_rows-IsCanonical m h.0, emit-IsCanonical acc h.1)

module _ (first : BlockDelta) (ds : List BlockDelta) (d : BlockDelta)
    (e : coalesce (first ∷ ds) ≡ ok d) where
  ordered : All IsSegmentOrdered (parts_of first ds d e).acc
  ordered =
      add_deltas-IsSegmentOrdered _ _ (first ∷ ds) (parts_of first ds d e).added
        (replicate-IsSegmentOrdered (length first.per_segment))

  -- Where `coalesce` succeeds, every cell of the result is the sum of the cell's deltas over the
  -- whole run.
  pub coalesce_sum : (s r o : ℕ) → segments_at s r o d.per_segment ≡ run_at s r o (first ∷ ds)
  coalesce_sum s r o = rw ((parts_of first ds d e).emitted) (
      emit_at s r o _ ordered
      ∙ add_deltas_at s r o _ _ (first ∷ ds) (parts_of first ds d e).added
      ∙ rw (replicate_at (length first.per_segment) s r o) (zero-+ℤ _))

  -- Where `coalesce` succeeds, every segment of the result is canonical (rows and offsets ascend, no
  -- cell is 0, no row is empty), and its block is the last one of the run.
  pub coalesce-IsCanonical : All IsCanonical d.per_segment × (d.block ≡ last_block first ds)
  coalesce-IsCanonical = rw ((parts_of first ds d e).emitted) (emit-IsCanonical _ ordered, refl)
