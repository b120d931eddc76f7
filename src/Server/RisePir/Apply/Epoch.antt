-- ===== src/Server/RisePir/Apply/Epoch.antt =====
-- What a block leaves behind: all of an epoch where it succeeds, and none of one where it fails.
use private_eth_getbalance_w.Prelude.{
  ℕ, ◌+◌, ◌%◌, ◌^◌, ◌≤◌, ◌<◌, ◌≡◌, refl, sym, ◌∙◌, ap, arith, List, [], Outcome, ok, err, panic,
  length, All, Bool-cases, inl, inr, ◌⊎◌, leb, >>=-eq-ok, >>=-IsErrFree, ok-injective, IsErrFree,
  get_elem?, some,
}
use private_eth_getbalance_w.Proto.Delta.{AddressHash, BlockUpdate, BlockDelta, SegmentRowDeltas}
use private_eth_getbalance_w.Proto.Delta.Canonical.{IsCanonical}
use private_eth_getbalance_w.Server.Verified.{lift}
use private_eth_getbalance_w.Server.Verified.Found.{lift-eq-ok}
use private_eth_getbalance_w.Server.Fold.{fold_mutations_into_row_deltas}
use private_eth_getbalance_w.Server.Fold.Canonical.{fold-IsCanonical}
use private_eth_getbalance_w.Server.RisePir.{
  ServerError, non_monotonic_block, BlockApplyReport, Cuckoo, Backend, RisePirServer, apply_changes,
  apply_credits,
}
use private_eth_getbalance_w.Server.RisePir.Hints.{
  Patched, patch_hints_whole, patch_hints-IsErrFree,
}
use private_eth_getbalance_w.Server.RisePir.Apply.{
  zero_report, patch_hints, sealed, state_of, reject_block, apply_updates, finish_block,
  conclude_block, apply_block_reporting,
}
use private_eth_getbalance_w.Server.RisePir.Apply.Counts.{
  total, and_then-eq-ok, apply_changes-total, apply_credits-total,
}

lift-IsErrFree : {A : Type 0} (r : Outcome ⊥ A) → IsErrFree (lift {E = ServerError} r)
lift-IsErrFree (ok a) = tt
lift-IsErrFree (err e) = absurd e
lift-IsErrFree panic = tt

module _ {S : Type 0} {b : Backend} where
  state_of-eq-err :
      {A : Type 0} (server server' : RisePirServer S b)
      (run : Outcome ServerError (A × RisePirServer S b)) (e : ServerError)
      → IsErrFree run
      → ◌≡◌ {A = Outcome ServerError A × RisePirServer S b} (state_of server run) (err e, server')
      → ⊥
  state_of-eq-err server server' (ok (a, s)) e free h = cc (ap (λ p. p.0) h)
  state_of-eq-err server server' (err x) e free h = free
  state_of-eq-err server server' panic e free h = cc (ap (λ p. p.0) h)

  state_of-eq-ok :
      {A : Type 0} (server server' : RisePirServer S b)
      (run : Outcome ServerError (A × RisePirServer S b)) (a : A)
      → ◌≡◌ {A = Outcome ServerError A × RisePirServer S b} (state_of server run) (ok a, server')
      → run ≡ ok (a, server')
  state_of-eq-ok server server' (ok (a', s)) a h =
      let p : a' ≡ a = ok-injective a' a (ap (λ p. p.0) h) in
      let q : s ≡ server' = ap (λ p. p.1) h in rw (p, q) refl
  state_of-eq-ok server server' (err x) a h = absurd (cc (ap (λ p. p.0) h))
  state_of-eq-ok server server' panic a h = absurd (cc (ap (λ p. p.0) h))

module _ (xxh3_64_with_seed : AddressHash → ℕ → ℕ) {S : Type 0} (cuckoo : Cuckoo S)
    {b : Backend} where
  -- The state is the one before, but for the store, whose log is empty.
  abbrev pub IsUntouched : RisePirServer S b → RisePirServer S b → Type 0
  IsUntouched server server' =
      (server' ≡ record server { store = server'.store })
      × ((cuckoo.drain_mutations server'.store).0 ≡ [])

  finish_block-IsErrFree :
      (update : BlockUpdate) (counts : BlockApplyReport) (server : RisePirServer S b)
      → IsErrFree (finish_block cuckoo update counts server)
  unfolding finish_block
  finish_block-IsErrFree update counts server =
      >>=-IsErrFree _ _ (lift-IsErrFree _)
        (λ rows. >>=-IsErrFree (patch_hints 0 rows _) _ (patch_hints-IsErrFree 0 rows _) (λ s. tt))

  conclude_block-err :
      (update : BlockUpdate) (server server' : RisePirServer S b)
      (run : Outcome ServerError BlockApplyReport × S) (e : ServerError)
      → ((s : S) → (cuckoo.drain_mutations (cuckoo.drain_mutations s).1).0 ≡ [])
      → conclude_block cuckoo update server run ≡ (err e, server')
      → IsUntouched server server'
  unfolding conclude_block reject_block
  conclude_block-err update server server' (ok counts, store) e drained h = absurd (
      state_of-eq-err _ server' (finish_block cuckoo update counts _) e
        (finish_block-IsErrFree update counts _) h)
  conclude_block-err update server server' (err x, store) e drained h =
      let at : record server { store = (cuckoo.drain_mutations store).1 } ≡ server' =
        ap (λ p. p.1) h in
      rw (← at) (refl, drained store)
  conclude_block-err update server server' (panic, store) e drained h =
      absurd (cc (ap (λ p. p.0) h))

  -- A block that fails either was not after the server's head, in which case the server is unchanged
  -- and the error says so, or leaves every part of the server but the store as it was: head, hints,
  -- parameters; the mutation log of the store is then empty, so that no write of the failed block
  -- reaches a later delta. That draining the log empties it is a condition on the store.
  pub apply_block-IsUntouched :
      (update : BlockUpdate) (server server' : RisePirServer S b) (e : ServerError)
      → ((s : S) → (cuckoo.drain_mutations (cuckoo.drain_mutations s).1).0 ≡ [])
      → apply_block_reporting xxh3_64_with_seed cuckoo update server ≡ (err e, server')
      → ((update.block ≤ server.block)
          × (server' ≡ server)
          × (e ≡ non_monotonic_block server.block update.block))
        ⊎ ((server.block < update.block) × IsUntouched server server')
  unfolding apply_block_reporting
  apply_block-IsUntouched update server server' e drained h =
      elim (Bool-cases (leb update.block server.block)) [
        | inl late ↦
            let h = rw late at h in inl (ground arith, sym (ap (λ p. p.1) h), cc (ap (λ p. p.0) h))
        | inr next ↦ inr (
          ground arith,
          conclude_block-err update server server'
              (apply_updates xxh3_64_with_seed cuckoo update server) e drained (rw next at h),
        )
      ]

  -- What a block that succeeds comes to.
  pub record Success (update : BlockUpdate) (server : RisePirServer S b)
      (result : BlockDelta × BlockApplyReport) (server' : RisePirServer S b) : Type 0 where
    pub advanced : server.block < update.block
    pub counts : BlockApplyReport
    pub store : S
    pub updates : apply_updates xxh3_64_with_seed cuckoo update server ≡ (ok counts, store)
    pub rows : List SegmentRowDeltas
    pub folded :
        (fold_mutations_into_row_deltas
            (cuckoo.pack_slot_cells server.params)
            server.params
            (cuckoo.drain_mutations store).0
          ≡ ok rows)
    pub hints : List b.Hint
    pub patched :
        ((j : ℕ) (deltas : SegmentRowDeltas)
          → get_elem? rows j ≡ some deltas
          → Patched b server.backend_params server.material server.hints hints j deltas)
    pub whole :
        ((result, server')
          ≡ sealed update counts rows
              (record server { store = (cuckoo.drain_mutations store).1; hints = hints }))

  conclude_block-ok :
      (update : BlockUpdate) (server server' : RisePirServer S b)
      (run : Outcome ServerError BlockApplyReport × S) (result : BlockDelta × BlockApplyReport)
      → conclude_block cuckoo update server run ≡ (ok result, server')
      → (counts : BlockApplyReport) × (store : S) × (run ≡ (ok counts, store))
        × (finish_block cuckoo update counts (record server { store = store })
            ≡ ok (result, server'))
  unfolding conclude_block reject_block
  conclude_block-ok update server server' (ok counts, store) result h =
      (counts, store, refl, state_of-eq-ok _ server' _ result h)
  conclude_block-ok update server server' (err x, store) result h = absurd (cc (ap (λ p. p.0) h))
  conclude_block-ok update server server' (panic, store) result h = absurd (cc (ap (λ p. p.0) h))

  pub finish_block-ok :
      (update : BlockUpdate) (counts : BlockApplyReport) (server server' : RisePirServer S b)
      (result : BlockDelta × BlockApplyReport)
      → finish_block cuckoo update counts server ≡ ok (result, server')
      → (rows : List SegmentRowDeltas) × (hints : List b.Hint) × (fold_mutations_into_row_deltas
            (cuckoo.pack_slot_cells server.params)
            server.params
            (cuckoo.drain_mutations server.store).0
          ≡ ok rows)
        × (length hints ≡ length server.hints)
        × ((j : ℕ) (deltas : SegmentRowDeltas)
            → get_elem? rows j ≡ some deltas
            → Patched b server.backend_params server.material server.hints hints j deltas)
        × ((result, server')
            ≡ sealed update counts rows
                (record server { store = (cuckoo.drain_mutations server.store).1; hints = hints }))
  unfolding finish_block
  finish_block-ok update counts server server' result e =
      let fold =
        fold_mutations_into_row_deltas (cuckoo.pack_slot_cells server.params) server.params
          (cuckoo.drain_mutations server.store).0 in
      let (rows, folded, e) = >>=-eq-ok (lift fold) _ e in
      let drained = record server { store = (cuckoo.drain_mutations server.store).1 } in
      let (last, patched, e) = >>=-eq-ok (patch_hints 0 rows drained) _ e in
      let (hints, at, n, each) = patch_hints_whole rows drained last patched in
      (
        rows,
        hints,
        lift-eq-ok fold rows folded,
        n,
        each,
        sym (ok-injective (sealed update counts rows last) (result, server') e)
            ∙ ap (sealed update counts rows) at,
      )

  pub success :
      (update : BlockUpdate) (server server' : RisePirServer S b)
      (result : BlockDelta × BlockApplyReport)
      → apply_block_reporting xxh3_64_with_seed cuckoo update server ≡ (ok result, server')
      → Success update server result server'
  unfolding apply_block_reporting
  success update server server' result h = elim (Bool-cases (leb update.block server.block)) [
    | inl late ↦ absurd (cc (ap (λ p. p.0) (rw late at h)))
    | inr next ↦
        let (counts, store, run, e) =
          conclude_block-ok update server server'
            (apply_updates xxh3_64_with_seed cuckoo update server) result (rw next at h) in
        let (rows, hints, folded, n, patched, whole) =
          finish_block-ok update counts (record server { store = store }) server' result e in
        record {
          advanced = ground arith;
          counts = counts;
          store = store;
          updates = run;
          rows = rows;
          folded = folded;
          hints = hints;
          patched = patched;
          whole = whole;
        }
  ]

  -- A block that succeeds was after the server's head, which is then the block's number. The delta that
  -- it returns carries that number, and for each segment of the geometry a list of edits in canonical
  -- form. Beside the head only the store and the hints change, and the store's log is left empty, where
  -- draining a log empties it.
  pub apply_block-IsCanonical :
      (update : BlockUpdate) (server server' : RisePirServer S b) (delta : BlockDelta)
      (report : BlockApplyReport)
      → ((s : S) → (cuckoo.drain_mutations (cuckoo.drain_mutations s).1).0 ≡ [])
      → apply_block_reporting xxh3_64_with_seed cuckoo update server ≡ (ok (delta, report), server')
      → (server.block < update.block)
        × (delta.block ≡ update.block)
        × (length delta.per_segment ≡ server.params.arity)
        × All IsCanonical delta.per_segment
        × (server'
            ≡ record server { store = server'.store; hints = server'.hints; block = update.block })
        × ((cuckoo.drain_mutations server'.store).0 ≡ [])
  apply_block-IsCanonical update server server' delta report drained h =
      let s = success update server server' (delta, report) h in
      let (n, canonical) =
        fold-IsCanonical (cuckoo.pack_slot_cells server.params) server.params
          (cuckoo.drain_mutations s.store).0 s.rows s.folded in
      let rows : delta.per_segment ≡ s.rows = ap (λ p. p.0.0.per_segment) s.whole in
      let left : server' ≡ record server {
        store = (cuckoo.drain_mutations s.store).1;
        hints = s.hints;
        block = update.block;
      } =
        ap (λ p. p.1) s.whole in
      (
        s.advanced,
        ap (λ p. p.0.0.block) s.whole,
        ap length rows ∙ n,
        rw rows canonical,
        rw left refl,
        rw left (drained s.store),
      )

  -- A block that succeeds patches, by the edits of its delta, the hint of each segment that has one, and
  -- keeps the hint of each other segment.
  pub apply_block-Patched :
      (update : BlockUpdate) (server server' : RisePirServer S b) (delta : BlockDelta)
      (report : BlockApplyReport)
      → apply_block_reporting xxh3_64_with_seed cuckoo update server ≡ (ok (delta, report), server')
      → (j : ℕ) (edits : SegmentRowDeltas) → get_elem? delta.per_segment j ≡ some edits
      → Patched b server.backend_params server.material server.hints server'.hints j edits
  apply_block-Patched update server server' delta report h j edits at =
      let s = success update server server' (delta, report) h in
      let rows : delta.per_segment ≡ s.rows = ap (λ p. p.0.0.per_segment) s.whole in
      let hints : server'.hints ≡ s.hints = ap (λ p. p.1.hints) s.whole in
      rw hints (s.patched j edits (rw rows at at))

  -- The report of a block that succeeds counts each of its changes and credits, fewer than 2^64 in all,
  -- exactly once: as an insert, an update, a delete or a delete of nothing.
  apply_block_counts :
      (update : BlockUpdate) (server server' : RisePirServer S b) (delta : BlockDelta)
      (report : BlockApplyReport)
      → length update.changes + length update.credits < 2 ^ 64
      → apply_block_reporting xxh3_64_with_seed cuckoo update server ≡ (ok (delta, report), server')
      → (report.inserts + report.updates + report.deletes + report.noop_deletes
          ≡ report.changes + report.credits)
        × (report.changes ≡ length update.changes)
        × (report.credits ≡ length update.credits)
  unfolding apply_updates
  apply_block_counts update server server' delta report room h =
      let s = success update server server' (delta, report) h in
      let codec = server.value_codec in
      let (r, mid, changes, credits) =
        and_then-eq-ok
          (apply_changes xxh3_64_with_seed cuckoo codec update.changes zero_report server.store)
          (apply_credits xxh3_64_with_seed cuckoo codec update.credits) s.counts s.store
          s.updates in
      let n =
        apply_changes-total xxh3_64_with_seed cuckoo codec update.changes zero_report r server.store
          mid (omega arith) changes in
      let m =
        apply_credits-total xxh3_64_with_seed cuckoo codec update.credits r s.counts mid s.store
          (omega (arith, n)) credits in
      let same : total report ≡ total s.counts = ap (λ p. total p.0.1) s.whole in
      let c : report.changes ≡ length update.changes % 2 ^ 64 = ap (λ p. p.0.1.changes) s.whole in
      let d : report.credits ≡ length update.credits % 2 ^ 64 = ap (λ p. p.0.1.credits) s.whole in
      (omega (arith, n, m, same, c, d), omega (arith, c), omega (arith, d))
