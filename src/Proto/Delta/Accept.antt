-- ===== src/Proto/Delta/Accept.antt =====
-- What `coalesce` accepts, the block of its result, and that it never panics.
use private_eth_getbalance_w.Prelude.{
  ℕ, ◌+◌, ◌%◌, ◌^◌, ◌<◌, ◌≡◌, ◌≢◌, refl, ◌∙◌, ap, arith, List, [], ◌∷◌, zero, suc, map, All, length,
  replicate,
}
use private_eth_getbalance_w.Prelude.{Outcome, ok, err, panic, >>=-eq-ok, ◌>>=◌, ok_or}
use private_eth_getbalance_w.Prelude.Int.{checked_add}
use private_eth_getbalance_w.Prelude.Maps.{get, insert, nat_key}
use private_eth_getbalance_w.Proto.Delta.{
  BlockDelta, SegmentMap, RowMap, Cells, SegmentRowDeltas, overflow, check_run, add_cells, add_rows,
  add_segments, add_deltas, emit_rows, last_block, coalesce, row_or_default, value_or_zero,
}
use private_eth_getbalance_w.Prelude.{Option, none, some}
use private_eth_getbalance_w.Prelude.{length-replicate, ◌↔◌}
use private_eth_getbalance_w.Proto.Delta.Coalesce.{coalesce-IsCanonical}
use private_eth_getbalance_w.Proto.Delta.Sums.{
  value_at, entry_at, add_segments-nil, add_segments-eq-ok,
}
use private_eth_getbalance_w.Proto.Delta.Total.{
  IsRun, check_run-IsRun, check_run_of_run, mass, SegmentWithin, add_deltas_total,
}

replicate-SegmentWithin : (n : ℕ) → All (SegmentWithin 0) (replicate n [])
unfolding entry_at value_at get
replicate-SegmentWithin zero = tt
replicate-SegmentWithin (suc n) = ((λ r o. omega arith), replicate-SegmentWithin n)

-- A run of one arity whose deltas together stay below 2^63 is coalesced: no sum overflows.
pub coalesce_runs :
    (first : BlockDelta) (ds : List BlockDelta)
    → IsRun first.block (length first.per_segment) (first ∷ ds)
    → mass (first ∷ ds) < 2 ^ 63
    → (d : BlockDelta) × (coalesce (first ∷ ds) ≡ ok d)
unfolding coalesce
coalesce_runs first ds run fits =
    let n : ℕ = length first.per_segment in
    let (acc, added) =
      add_deltas_total 0 first.block (replicate n []) (first ∷ ds) (replicate-SegmentWithin n)
        (rw (length-replicate n) run) (omega arith) in
    (
      record { block = last_block first ds; per_segment = map emit_rows acc },
      rw (check_run_of_run first.block n (first ∷ ds) run, added),
    )

pub coalesce-IsRun :
    (first : BlockDelta) (ds : List BlockDelta) (d : BlockDelta)
    → coalesce (first ∷ ds) ≡ ok d
    → IsRun first.block (length first.per_segment) (first ∷ ds)
unfolding coalesce
coalesce-IsRun first ds d e =
    let (u, checked, k) =
      >>=-eq-ok (check_run first.block (length first.per_segment) (first ∷ ds)) _ e in
    check_run-IsRun first.block (length first.per_segment) (first ∷ ds) checked

-- While the deltas together stay below 2^63, `coalesce` succeeds exactly on the runs: the blocks
-- go up by one and all inputs have as many segments as the first.
coalesce_iff :
    (first : BlockDelta) (ds : List BlockDelta)
    → mass (first ∷ ds) < 2 ^ 63
    → ((d : BlockDelta) × (coalesce (first ∷ ds) ≡ ok d))
      ↔ IsRun first.block (length first.per_segment) (first ∷ ds)
coalesce_iff first ds fits =
    ((λ p. coalesce-IsRun first ds p.0 p.1), λ run. coalesce_runs first ds run fits)

pub last_block_of_run :
    (d : BlockDelta) (ds : List BlockDelta) (n b : ℕ)
    → IsRun b n (d ∷ ds)
    → b + length ds < 2 ^ 64
    → last_block d ds ≡ b + length ds
last_block_of_run d [] n b run fits = omega arith
last_block_of_run d (e ∷ ds) n b run fits =
    let next : (b + 1) % 2 ^ 64 ≡ b + 1 = omega arith in
    omega (arith, last_block_of_run e ds n (b + 1) (rw next at run.2) (omega arith))

-- Where `coalesce` succeeds and no u64 block number wraps, the block of the result is the first
-- one's plus the number of the deltas after it.
pub coalesce_block :
    (first : BlockDelta) (ds : List BlockDelta) (d : BlockDelta)
    → first.block + length ds < 2 ^ 64
    → coalesce (first ∷ ds) ≡ ok d
    → d.block ≡ first.block + length ds
coalesce_block first ds d fits e =
    (coalesce-IsCanonical first ds d e).1
    ∙ last_block_of_run first ds (length first.per_segment) first.block
        (coalesce-IsRun first ds d e) fits

ok_or-ne-panic {ℓ} : {E : Type 0} {A : Type ℓ} (o : Option A) (e : E) → ok_or o e ≢ panic
ok_or-ne-panic none e h = cc
ok_or-ne-panic (some a) e h = cc

-- A bind panics only if one of its parts does.
>>=-ne-panic {ℓ κ} :
    {E : Type 0} {A : Type ℓ} {B : Type κ} (m : Outcome E A) (f : A → Outcome E B)
    → m ≢ panic
    → ((a : A) → m ≡ ok a → f a ≢ panic)
    → (m >>= f) ≢ panic
>>=-ne-panic (ok a) f h k = k a refl
>>=-ne-panic (err e) f h k = λ p. cc
>>=-ne-panic panic f h k = λ p. h refl

add_cells-ne-panic : (m : RowMap) (cells : Cells) → add_cells m cells ≢ panic
unfolding add_cells
add_cells-ne-panic m [] = λ p. cc
add_cells-ne-panic m ((offset, d) ∷ cells) =
    >>=-ne-panic (ok_or (checked_add (value_or_zero (get offset m)) d) overflow) _
      (ok_or-ne-panic _ overflow) (λ sum e. add_cells-ne-panic (insert offset sum m) cells)

add_rows-ne-panic : (m : SegmentMap) (rows : SegmentRowDeltas) → add_rows m rows ≢ panic
unfolding add_rows
add_rows-ne-panic m [] = λ p. cc
add_rows-ne-panic m ((row, cells) ∷ rows) =
    >>=-ne-panic (add_cells (row_or_default (get row m)) cells) _ (add_cells-ne-panic _ cells)
      (λ r e. add_rows-ne-panic (insert row r m) rows)

add_segments-ne-panic :
    (acc : List SegmentMap) (segs : List SegmentRowDeltas)
    → length segs ≡ length acc
    → add_segments acc segs ≢ panic
unfolding add_segments
add_segments-ne-panic acc [] len = λ p. cc
add_segments-ne-panic [] (seg ∷ segs) len = absurd (omega arith)
add_segments-ne-panic (m ∷ acc) (seg ∷ segs) len =
    >>=-ne-panic (add_rows m seg) _ (add_rows-ne-panic m seg) (λ m' e.
      >>=-ne-panic (add_segments acc segs) _ (add_segments-ne-panic acc segs (omega arith))
        (λ ms k p. cc))

length-add_segments :
    (acc acc' : List SegmentMap) (segs : List SegmentRowDeltas)
    → add_segments acc segs ≡ ok acc'
    → length acc' ≡ length acc
length-add_segments acc acc' [] e = rw (add_segments-nil acc acc' e)
length-add_segments [] acc' (seg ∷ segs) e = unfold add_segments in cc
length-add_segments (m ∷ acc) acc' (seg ∷ segs) e =
    let (m', ms, first, others, whole) = add_segments-eq-ok m acc acc' seg segs e in
    rw (← whole) (ap suc (length-add_segments acc ms segs others))

add_deltas-ne-panic :
    (expected : ℕ) (acc : List SegmentMap) (ds : List BlockDelta)
    → IsRun expected (length acc) ds
    → add_deltas acc ds ≢ panic
unfolding add_deltas
add_deltas-ne-panic expected acc [] run = λ p. cc
add_deltas-ne-panic expected acc (d ∷ ds) run =
    >>=-ne-panic (add_segments acc d.per_segment) _ (add_segments-ne-panic acc d.per_segment run.1)
      (λ mid e.
        add_deltas-ne-panic ((expected + 1) % 2 ^ 64) mid ds
          (rw (length-add_segments acc mid d.per_segment e) run.2))

check_run-ne-panic : (expected n : ℕ) (ds : List BlockDelta) → check_run expected n ds ≢ panic
unfolding check_run
check_run-ne-panic expected n [] = λ p. cc
check_run-ne-panic expected n (d ∷ ds) =
    ground (arith, check_run-ne-panic ((expected + 1) % 2 ^ 64) n ds)

-- `coalesce` never panics: the checks before the loops keep every segment index in range.
pub coalesce-ne-panic : (ds : List BlockDelta) → coalesce ds ≢ panic
unfolding coalesce
coalesce-ne-panic [] = λ p. cc
coalesce-ne-panic (first ∷ ds) =
    let n : ℕ = length first.per_segment in
    >>=-ne-panic (check_run first.block n (first ∷ ds)) _
      (check_run-ne-panic first.block n (first ∷ ds))
      (λ u e.
        >>=-ne-panic (add_deltas (replicate n []) (first ∷ ds)) _
          (add_deltas-ne-panic first.block (replicate n []) (first ∷ ds)
            (rw (length-replicate n) (check_run-IsRun first.block n (first ∷ ds) e)))
          (λ acc k p. cc))
