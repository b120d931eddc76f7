-- ===== src/Server/DeltaRing/Range.antt =====
-- `range` returns the whole of the requested range, or nothing.
use private_eth_getbalance_w.Prelude.{
  ℕ, suc, ◌+◌, ◌-◌, ◌%◌, ◌^◌, ◌<◌, ◌≤◌, ◌≡◌, refl, subst, arith, List, [], ◌∷◌, none, some, min,
  max, All,
}
use private_eth_getbalance_w.Prelude.{
  Outcome, ok, err, panic, length, if◌then◌else◌, ◌==◌, leb, inl, inr, ◌⊎◌, ◌↔◌, dec_lt, not,
}
use private_eth_getbalance_w.Proto.Delta.{BlockDelta, coalesce}
use private_eth_getbalance_w.Proto.Delta.Sums.{segments_at, run_at}
use private_eth_getbalance_w.Proto.Delta.Coalesce.{coalesce_sum}
use private_eth_getbalance_w.Proto.Delta.Total.{IsRun, mass}
use private_eth_getbalance_w.Proto.Delta.Accept.{coalesce-IsRun, coalesce_runs, coalesce_block}
use private_eth_getbalance_w.Server.DeltaRing.{DeltaRing, select, range, ok_of}

abbrev IsWithin : ℕ → ℕ → BlockDelta → Type 0
IsWithin lo hi d = (lo < d.block) × (d.block ≤ hi)

select-IsWithin : (lo hi : ℕ) (ds : List BlockDelta) → All (IsWithin lo hi) (select lo hi ds)
unfolding select
select-IsWithin lo hi [] = tt
select-IsWithin lo hi (d ∷ ds) = ground (arith, select-IsWithin lo hi ds)

-- A run inside the range cannot wrap past it.
run_within :
    (lo hi b n : ℕ) (ds : List BlockDelta)
    → hi < 2 ^ 64
    → b ≤ 2 ^ 64
    → b ≤ hi + 1
    → IsRun (b % 2 ^ 64) n ds
    → All (IsWithin lo hi) ds
    → b + length ds ≤ hi + 1
run_within lo hi b n [] hh hb he run w = omega arith
run_within lo hi b n (d ∷ ds) hh hb he run w = elim (dec_lt b (2 ^ 64)) [
  | yes p ↦
      let same : b % 2 ^ 64 ≡ b = omega arith in
      omega (
        arith,
        run_within lo hi (b + 1) n ds hh (omega arith) (omega (arith, run.0, same))
            (rw same at run.2) w.1,
      )
  | no p ↦ absurd (omega (arith, run.0, w.0.0))
]

ok_of-some {ℓ} : {E : Type 0} {A : Type ℓ} (o : Outcome E A) (a : A) → ok_of o ≡ some a → o ≡ ok a
ok_of-some (ok b) a h = cc
ok_of-some (err e) a h = cc
ok_of-some panic a h = cc

-- What `range` returned, taken apart.
record Ranged (lo hi : ℕ) (r : DeltaRing) (d : BlockDelta) : Type 0 where
  first : BlockDelta
  others : List BlockDelta
  forward : lo < hi
  chosen : select lo hi r.buf ≡ first ∷ others
  count : suc (length others) ≡ hi - lo
  coalesced : coalesce (first ∷ others) ≡ ok d

ranged : (lo hi : ℕ) (r : DeltaRing) (d : BlockDelta) → range lo hi r ≡ some d → Ranged lo hi r d
unfolding range
ranged lo hi r d e = go (select lo hi r.buf) refl e
  where
    go :
        (s : List BlockDelta)
        → select lo hi r.buf ≡ s
        → (if leb hi lo
            then none
            else if not (length s == hi - lo)
            then none
            else ok_of (coalesce s))
          ≡ some d
        → Ranged lo hi r d
    go [] q e = absurd (ground arith)
    go (first ∷ others) q e = record {
      first = first;
      others = others;
      forward = ground arith;
      chosen = q;
      count = ground arith;
      coalesced = ground (arith, ok_of-some (coalesce (first ∷ others)) d);
    }

range_first :
    (lo hi n : ℕ) (d : BlockDelta) (ds : List BlockDelta)
    → hi < 2 ^ 64
    → suc (length ds) ≡ hi - lo
    → All (IsWithin lo hi) (d ∷ ds)
    → IsRun d.block n (d ∷ ds)
    → d.block ≡ lo + 1
range_first lo hi n d ds hh count w run =
    let same : d.block % 2 ^ 64 ≡ d.block = omega (arith, w.0.1) in
    omega (
      arith,
      w.0.0,
      w.0.1,
      run_within lo hi d.block n (d ∷ ds) hh (omega (arith, w.0.1)) (omega (arith, w.0.1))
          (rw same run) w,
    )

-- Where `range` answers, the selected deltas are, in the order of the window, the blocks `lo + 1`
-- to `hi`, each once and all of one number of segments, and the result stands at `hi`.
range_blocks :
    (lo hi : ℕ) (r : DeltaRing) (d : BlockDelta)
    → hi < 2 ^ 64
    → range lo hi r ≡ some d
    → (n : ℕ) × IsRun (lo + 1) n (select lo hi r.buf)
      × (lo + length (select lo hi r.buf) ≡ hi)
      × (d.block ≡ hi)
range_blocks lo hi r d hh e =
    let p = ranged lo hi r d e in
    let n : ℕ = length p.first.per_segment in
    let run : IsRun p.first.block n (p.first ∷ p.others) =
      coalesce-IsRun p.first p.others d p.coalesced in
    let within : All (IsWithin lo hi) (p.first ∷ p.others) =
      rw p.chosen at (select-IsWithin lo hi r.buf) in
    let start : p.first.block ≡ lo + 1 =
      range_first lo hi n p.first p.others hh p.count within run in
    let stop : d.block ≡ p.first.block + length p.others =
      coalesce_block p.first p.others d (omega (arith, p.count, p.forward)) p.coalesced in
    rw p.chosen (
      n,
      subst (λ i. IsRun i n (p.first ∷ p.others)) start run,
      omega (arith, p.count, p.forward),
      omega (arith, p.count, p.forward),
    )

-- Where `range` answers, each cell of the result is the sum of the cell's deltas over the window's
-- deltas of the blocks `lo + 1` to `hi`.
pub range_sum :
    (lo hi : ℕ) (r : DeltaRing) (d : BlockDelta)
    → range lo hi r ≡ some d
    → (s i o : ℕ) → segments_at s i o d.per_segment ≡ run_at s i o (select lo hi r.buf)
range_sum lo hi r d e s i o =
    let p = ranged lo hi r d e in rw p.chosen (coalesce_sum p.first p.others d p.coalesced s i o)

IsRun-of_none : (b n : ℕ) (ds : List BlockDelta) → length ds ≡ 0 → IsRun b n ds
IsRun-of_none b n [] h = tt
IsRun-of_none b n (d ∷ ds) h = absurd (omega arith)

abbrev IsSelected : ℕ → ℕ → ℕ → ℕ → ℕ → List BlockDelta → Type 0
IsSelected lo hi b end n s =
    (length s ≡ min (hi + 1) end - max (lo + 1) b) × IsRun (max (lo + 1) b % 2 ^ 64) n s

select_keep :
    (lo hi : ℕ) (d : BlockDelta) (ds : List BlockDelta)
    → lo < d.block
    → d.block ≤ hi
    → select lo hi (d ∷ ds) ≡ d ∷ select lo hi ds
unfolding select
select_keep lo hi d ds p q = ground arith

select_skip :
    (lo hi : ℕ) (d : BlockDelta) (ds : List BlockDelta)
    → (d.block ≤ lo) ⊎ (hi < d.block)
    → select lo hi (d ∷ ds) ≡ select lo hi ds
unfolding select
select_skip lo hi d ds h = ground arith

-- In a window of consecutive blocks from `b` up to `end`, what is selected is again a run.
selected :
    (lo hi b end n : ℕ) (ds : List BlockDelta)
    → b + length ds ≡ end
    → end ≤ 2 ^ 64
    → IsRun (b % 2 ^ 64) n ds
    → IsSelected lo hi b end n (select lo hi ds)
selected lo hi b end n [] len fits run = unfold select in (omega arith, tt)
selected lo hi b end n (d ∷ ds) len fits run =
    let at : d.block ≡ b = omega (arith, run.0) in
    let wrap : (b % 2 ^ 64 + 1) % 2 ^ 64 ≡ (b + 1) % 2 ^ 64 = omega arith in
    let rest : IsSelected lo hi (b + 1) end n (select lo hi ds) =
      selected lo hi (b + 1) end n ds (omega arith) fits (rw wrap at run.2) in
    elim (dec_lt lo b) [
      | yes p ↦ elim (dec_lt hi b) [
        | yes q ↦
            rw (select_skip lo hi d ds (inr (omega arith)))
              (omega arith, IsRun-of_none _ n (select lo hi ds) (omega arith))
        | no q ↦
            let next : max (lo + 1) (b + 1) % 2 ^ 64 ≡ (max (lo + 1) b % 2 ^ 64 + 1) % 2 ^ 64 =
              omega arith in
            rw (select_keep lo hi d ds (omega arith) (omega arith)) (
              omega arith,
              (omega arith, run.1, subst (λ i. IsRun i n (select lo hi ds)) next rest.1),
            )
      ]
      | no p ↦
          let same : max (lo + 1) (b + 1) ≡ max (lo + 1) b = omega arith in
          rw (select_skip lo hi d ds (inl (omega arith))) (rw same at rest)
    ]

IsRun-mod :
    (b n : ℕ) (ds : List BlockDelta)
    → b + length ds ≤ 2 ^ 64
    → IsRun b n ds
    → IsRun (b % 2 ^ 64) n ds
IsRun-mod b n [] fits run = tt
IsRun-mod b n (d ∷ ds) fits run =
    let same : b ≡ b % 2 ^ 64 = omega arith in subst (λ i. IsRun i n (d ∷ ds)) same run

coalesce_ok :
    (lo hi n : ℕ) (s : List BlockDelta)
    → length s ≡ hi - lo
    → lo < hi
    → hi < 2 ^ 64
    → IsRun (lo + 1) n s
    → mass s < 2 ^ 63
    → (d : BlockDelta) × (coalesce s ≡ ok d)
coalesce_ok lo hi n [] len forward hh run fits = absurd (omega arith)
coalesce_ok lo hi n (first ∷ others) len forward hh run fits =
    coalesce_runs first others (rw (← run.0, ← run.1) at run) fits

range_ok :
    (lo hi : ℕ) (r : DeltaRing) (d : BlockDelta)
    → lo < hi
    → length (select lo hi r.buf) ≡ hi - lo
    → coalesce (select lo hi r.buf) ≡ ok d
    → range lo hi r ≡ some d
unfolding range
range_ok lo hi r d forward len e = ground arith

-- On a window of consecutive u64 blocks, from `b` on, of one number of segments, whose selected
-- deltas stay together below 2^63, `range` answers exactly when the request is not empty and all
-- its blocks are held.
pub range_iff :
    (lo hi b n : ℕ) (r : DeltaRing)
    → IsRun b n r.buf
    → b + length r.buf ≤ 2 ^ 64
    → hi < 2 ^ 64
    → mass (select lo hi r.buf) < 2 ^ 63
    → ((d : BlockDelta) × (range lo hi r ≡ some d))
      ↔ ((lo < hi) × (b ≤ lo + 1) × (hi < b + length r.buf))
range_iff lo hi b n r run fits hh small = (held, given)
  where
    chosen : IsSelected lo hi b (b + length r.buf) n (select lo hi r.buf)
    chosen = selected lo hi b (b + length r.buf) n r.buf refl fits (IsRun-mod b n r.buf fits run)

    held :
        ((d : BlockDelta) × (range lo hi r ≡ some d))
        → (lo < hi) × (b ≤ lo + 1) × (hi < b + length r.buf)
    held (d, e) =
        let (m, blocks, count, at) = range_blocks lo hi r d hh e in
        let forward : lo < hi = (ranged lo hi r d e).forward in
        (forward, omega (arith, chosen.0), omega (arith, chosen.0))

    given :
        (lo < hi) × (b ≤ lo + 1) × (hi < b + length r.buf)
        → (d : BlockDelta) × (range lo hi r ≡ some d)
    given (forward, old, new) =
        let start : max (lo + 1) b % 2 ^ 64 ≡ lo + 1 = omega arith in
        let count : length (select lo hi r.buf) ≡ hi - lo = omega (arith, chosen.0) in
        let (d, e) =
          coalesce_ok lo hi n (select lo hi r.buf) count forward hh (rw start at chosen.1) small in
        (d, range_ok lo hi r d forward count e)
