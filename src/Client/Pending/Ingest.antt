-- ===== src/Client/Pending/Ingest.antt =====
-- `PendingDelta::ingest`, one delta and a run of them, against the sums and against `coalesce`.
use private_eth_getbalance_w.Prelude.{
  ℕ, zero, suc, ◌<◌, ◌≡◌, refl, sym, ◌∙◌, arith, List, [], ◌∷◌, All, length, replicate,
}
use private_eth_getbalance_w.Prelude.{Outcome, ok, err, panic, ◌⊎◌, length-replicate}
use private_eth_getbalance_w.Prelude.Int.{pos, ◌+ℤ◌, +ℤ-zero, zero-+ℤ, +ℤ_assoc}
use private_eth_getbalance_w.Proto.Delta.{BlockDelta, coalesce, last_block}
use private_eth_getbalance_w.Proto.Delta.Sums.{segments_at, run_at}
use private_eth_getbalance_w.Proto.Delta.Coalesce.{coalesce_sum, coalesce-IsCanonical}
use private_eth_getbalance_w.Client.Pending.{
  ClientError, delta_overflow, PendingMap, PendingDelta, Run, done, overflowed, panicked,
  ingest_segments, finish_ingest, ingest, new,
}
use private_eth_getbalance_w.Client.Pending.Sums.{cell_at, pending_at, ingest_segments_at}
use private_eth_getbalance_w.Client.Pending.Invariant.{
  IsPending, segments-IsPending, replicate-IsPending, pendings_ext,
}
use private_eth_getbalance_w.Prelude.Maps.{get}

-- A successful `ingest`, taken apart.
record Ingested (d : BlockDelta) (p p' : PendingDelta) : Type 0 where
  later : p.head < d.block
  arity : length d.per_segment ≡ length p.per_segment
  ran : ingest_segments d.per_segment p.per_segment ≡ done p'.per_segment
  at : p'.head ≡ d.block

finished :
    (p p' : PendingDelta) (block : ℕ) (r : Run (List PendingMap))
    → finish_ingest p block r ≡ (p', ok tt)
    → (r ≡ done p'.per_segment) × (p'.head ≡ block)
finished p p' block (done ms) e = ground arith
finished p p' block (overflowed ms) e = ground arith
finished p p' block panicked e = ground arith

unfinished :
    (p p' : PendingDelta) (block : ℕ) (x : ClientError) (r : Run (List PendingMap))
    → finish_ingest p block r ≡ (p', err x)
    → (p'.head ≡ p.head) × (x ≡ delta_overflow)
unfinished p p' block x (done ms) e = ground arith
unfinished p p' block x (overflowed ms) e = ground arith
unfinished p p' block x panicked e = ground arith

ingested : (d : BlockDelta) (p p' : PendingDelta) → ingest d p ≡ (p', ok tt) → Ingested d p p'
unfolding ingest
ingested d p p' e =
    let end : finish_ingest p d.block (ingest_segments d.per_segment p.per_segment) ≡ (p', ok tt)
        → (ingest_segments d.per_segment p.per_segment ≡ done p'.per_segment)
          × (p'.head ≡ d.block) =
      finished p p' d.block (ingest_segments d.per_segment p.per_segment) in
    record {
      later = ground arith;
      arity = ground arith;
      ran = ground (arith, end);
      at = ground (arith, end);
    }

-- A successful `ingest` adds the delta to every cell, and moves the head from below the delta's
-- block to it.
pub ingest_sum :
    (d : BlockDelta) (p p' : PendingDelta)
    → ingest d p ≡ (p', ok tt)
    → ((s r o : ℕ)
        → pending_at s r o p'.per_segment
          ≡ pending_at s r o p.per_segment +ℤ segments_at s r o d.per_segment)
      × (p'.head ≡ d.block)
      × (p.head < d.block)
ingest_sum d p p' e =
    let i = ingested d p p' e in
    (
      (λ s r o. ingest_segments_at s r o d.per_segment p.per_segment p'.per_segment i.ran),
      i.at,
      i.later,
    )

-- An `ingest` that returns an error leaves the head, and unless the error is the overflow it leaves
-- the whole pending delta as it was.
pub ingest_errors :
    (d : BlockDelta) (p p' : PendingDelta) (x : ClientError)
    → ingest d p ≡ (p', err x)
    → (p'.head ≡ p.head) × ((x ≡ delta_overflow) ⊎ (p' ≡ p))
unfolding ingest
ingest_errors d p p' x e =
    ground (arith, unfinished p p' d.block x (ingest_segments d.per_segment p.per_segment))

-- `ingest` of each delta of a list, stopping at the first error.
unfoldable pub ingest_all :
    List BlockDelta → PendingDelta → PendingDelta × Outcome ClientError (Unit {0})
ingest_all [] p = (p, ok tt)
ingest_all (d ∷ ds) p =
    let (p', r) = ingest d p in
    elim r [ ok _ ↦ ingest_all ds p' | err x ↦ (p', err x) | panic ↦ (p', panic) ]

ingest_all-cons :
    (d : BlockDelta) (ds : List BlockDelta) (p q : PendingDelta)
    → ingest_all (d ∷ ds) p ≡ (q, ok tt)
    → (p' : PendingDelta) × (ingest d p ≡ (p', ok tt)) × (ingest_all ds p' ≡ (q, ok tt))
unfolding ingest_all
ingest_all-cons d ds p q e = go (ingest d p).0 (ingest d p).1 refl e
  where
    go :
        (p' : PendingDelta) (r : Outcome ClientError (Unit {0}))
        → ingest d p ≡ (p', r)
        → (elim r [ ok _ ↦ ingest_all ds p' | err x ↦ (p', err x) | panic ↦ (p', panic) ])
          ≡ (q, ok tt)
        → (p' : PendingDelta) × (ingest d p ≡ (p', ok tt)) × (ingest_all ds p' ≡ (q, ok tt))
    go p' (ok tt) w h = (p', w, h)
    go p' (err x) w h = ground arith
    go p' panic w h = ground arith

-- What a run of ingests leaves: the sums, the invariant, the number of segments.
abbrev Tracks : List BlockDelta → PendingDelta → PendingDelta → Type 0
Tracks ds p q =
    ((s r o : ℕ)
      → pending_at s r o q.per_segment ≡ pending_at s r o p.per_segment +ℤ run_at s r o ds)
    × (All IsPending p.per_segment
        → All IsPending q.per_segment × (length q.per_segment ≡ length p.per_segment))

ingest_all-Tracks :
    (ds : List BlockDelta) (p q : PendingDelta) → ingest_all ds p ≡ (q, ok tt) → Tracks ds p q
unfolding run_at
ingest_all-Tracks [] p q e =
    let same : p ≡ q = unfold ingest_all in ground arith in
    rw (← same) ((λ s r o. sym (+ℤ-zero _)), λ h. (h, refl))
ingest_all-Tracks (d ∷ ds) p q e =
    let (p', first, rest) = ingest_all-cons d ds p q e in
    let (sums, keeps) = ingest_all-Tracks ds p' q rest in
    let i = ingested d p p' first in
    (
      (λ s r o.
          sums s r o
          ∙ rw (
            ingest_segments_at s r o d.per_segment p.per_segment p'.per_segment i.ran,
            +ℤ_assoc,
          )),
      (λ h.
          let (mid, size) = segments-IsPending d.per_segment p.per_segment p'.per_segment i.ran h in
          let (end, total) = keeps mid in (end, total ∙ size)),
    )

head-ingest_all :
    (first : BlockDelta) (ds : List BlockDelta) (p q : PendingDelta)
    → ingest_all (first ∷ ds) p ≡ (q, ok tt)
    → q.head ≡ last_block first ds
head-ingest_all first [] p q e =
    let (p', one, rest) = ingest_all-cons first [] p q e in
    let same : p' ≡ q = unfold ingest_all in ground arith in
    rw (← same) ((ingested first p p' one).at)
head-ingest_all first (d ∷ ds) p q e =
    let (p', one, rest) = ingest_all-cons first (d ∷ ds) p q e in head-ingest_all d ds p' q rest

-- From a pending delta that is ordered and free of zeros, ingesting a run block by block and
-- ingesting its coalesced delta leave the same state, where both succeed.
pub ingest_all-coalesce :
    (first : BlockDelta) (ds : List BlockDelta) (d : BlockDelta) (p q q' : PendingDelta)
    → All IsPending p.per_segment
    → coalesce (first ∷ ds) ≡ ok d
    → ingest_all (first ∷ ds) p ≡ (q, ok tt)
    → ingest d p ≡ (q', ok tt)
    → q ≡ q'
ingest_all-coalesce first ds d p q q' h c e e' =
    let (sums, keeps) = ingest_all-Tracks (first ∷ ds) p q e in
    let (valid, size) = keeps h in
    let i = ingested d p q' e' in
    let (valid', size') = segments-IsPending d.per_segment p.per_segment q'.per_segment i.ran h in
    let cells : q.per_segment ≡ q'.per_segment =
      pendings_ext q.per_segment q'.per_segment (size ∙ sym size') valid valid' (λ s r o.
        sums s r o
        ∙ sym (rw (← coalesce_sum first ds d c s r o) ((ingest_sum d p q' e').0 s r o))) in
    let block : d.block ≡ last_block first ds = (coalesce-IsCanonical first ds d c).1 in
    let heads : q.head ≡ q'.head = head-ingest_all first ds p q e ∙ sym block ∙ sym i.at in
    λ t. record { per_segment = cells t; head = heads t }

fresh_at : (n s r o : ℕ) → pending_at s r o (replicate n []) ≡ pos 0
unfolding pending_at cell_at get
fresh_at zero s r o = refl
fresh_at (suc n) zero r o = refl
fresh_at (suc n) (suc s) r o = fresh_at n s r o

-- From a fresh pending delta, where every `ingest` succeeds, each cell is the sum of the cell's
-- deltas over the list, the maps are ordered and free of zeros, and there are as many as segments.
pub ingest_all-new :
    (arity head : ℕ) (ds : List BlockDelta) (q : PendingDelta)
    → ingest_all ds (new arity head) ≡ (q, ok tt)
    → ((s r o : ℕ) → pending_at s r o q.per_segment ≡ run_at s r o ds)
      × All IsPending q.per_segment
      × (length q.per_segment ≡ arity)
unfolding new
ingest_all-new arity head ds q e =
    let (sums, keeps) = ingest_all-Tracks ds (new arity head) q e in
    let (valid, size) = keeps (replicate-IsPending arity) in
    (
      (λ s r o. sums s r o ∙ rw (fresh_at arity s r o) (zero-+ℤ _)),
      valid,
      size ∙ length-replicate arity [],
    )
