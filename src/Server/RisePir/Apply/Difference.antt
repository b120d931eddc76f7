-- ===== src/Server/RisePir/Apply/Difference.antt =====
-- A block's delta is the difference of the server's databases before and after the block.
use private_eth_getbalance_w.Prelude.{ℕ, ◌/◌, ◌%◌, ◌≡◌, refl, sym, ◌∙◌, ap, subst, [], ok}
use private_eth_getbalance_w.Prelude.Int.{sub_ℕ}
use private_eth_getbalance_w.Proto.Delta.{AddressHash, BlockUpdate, BlockDelta}
use private_eth_getbalance_w.Proto.Delta.Sums.{segments_at}
use private_eth_getbalance_w.Server.Fold.{CuckooParams}
use private_eth_getbalance_w.Server.Fold.Replay.{Database, IsWords, Replay, replayed, fold-Replay}
use private_eth_getbalance_w.Server.RisePir.{BlockApplyReport, Cuckoo, Backend, RisePirServer}
use private_eth_getbalance_w.Server.RisePir.Kept.{IsKept, kept-apply_updates}
use private_eth_getbalance_w.Server.RisePir.Apply.{
  zero_report, apply_updates, apply_block_reporting,
}
use private_eth_getbalance_w.Server.RisePir.Apply.Epoch.{success}

module _ {S : Type 0} (cuckoo : Cuckoo S) (IsLogging : S → Type 0) where
  -- A store with its log on and empty.
  pub record IsFresh (s : S) : Type 0 where
    pub logging : IsLogging s
    pub empty : (cuckoo.drain_mutations s).0 ≡ []

-- `cells` are the cells of a store, and `IsLogging` says that its log is on.
module _ {S : Type 0} (cuckoo : Cuckoo S) (params : CuckooParams) (cells : S → Database)
    (IsLogging : S → Type 0) where
  -- The log of a store leads from the cells of an earlier one to its own.
  abbrev pub Logged : S → S → Type 0
  Logged origin s =
      IsLogging s
      × Replay (cuckoo.pack_slot_cells params) params (cuckoo.drain_mutations s).0 (cells origin)
          (cells s)

  -- A store whose log is on logs every change of a cell, by all its writes, also those that fail.
  -- Draining the log empties it, and changes no cell.
  pub record LogsWrites : Type 0 where
    pub words : (s : S) → IsWords (cells s)
    pub writes : (origin : S) → IsKept cuckoo (Logged origin)
    pub drain_logging : (s : S) → IsLogging s → IsLogging (cuckoo.drain_mutations s).1
    pub drain_cells : (s : S) (b o : ℕ) → cells (cuckoo.drain_mutations s).1 b o ≡ cells s b o
    pub drained : (s : S) → (cuckoo.drain_mutations (cuckoo.drain_mutations s).1).0 ≡ []

  fresh-Logged : (s : S) → IsFresh cuckoo IsLogging s → Logged s s
  fresh-Logged s h = (
    h.logging,
    subst (λ muts. Replay (cuckoo.pack_slot_cells params) params muts (cells s) (cells s))
        (sym h.empty) (replayed (cells s) (cells s) (λ b o. refl)),
  )

module _ (xxh3_64_with_seed : AddressHash → ℕ → ℕ) {S : Type 0} (cuckoo : Cuckoo S) {b : Backend}
    (params : CuckooParams) (cells : S → Database) (IsLogging : S → Type 0)
    (law : LogsWrites cuckoo params cells IsLogging) where
  -- A block that succeeds on a server of the given geometry, whose store's log is on and empty, returns
  -- a delta that is, for each cell of each bucket, what the cell holds after the block less what it held
  -- before. It leaves the log on and empty again. The condition on the store is that its log holds every
  -- change of a cell.
  pub apply_block_difference :
      (update : BlockUpdate) (server server' : RisePirServer S b) (delta : BlockDelta)
      (report : BlockApplyReport)
      → server.params ≡ params
      → IsFresh cuckoo IsLogging server.store
      → apply_block_reporting xxh3_64_with_seed cuckoo update server ≡ (ok (delta, report), server')
      → ((bucket offset : ℕ)
          → segments_at
              (bucket / params.segment_size)
              (bucket % params.segment_size)
              offset
              delta.per_segment
            ≡ sub_ℕ (cells server'.store bucket offset) (cells server.store bucket offset))
        × IsFresh cuckoo IsLogging server'.store
        × (server'.params ≡ params)
  unfolding apply_updates
  apply_block_difference update server server' delta report geometry fresh h =
      let s = success xxh3_64_with_seed cuckoo update server server' (delta, report) h in
      let pack = cuckoo.pack_slot_cells params in
      let rows : delta.per_segment ≡ s.rows = ap (λ p. p.0.0.per_segment) s.whole in
      let store : server'.store ≡ (cuckoo.drain_mutations s.store).1 =
        ap (λ p. p.1.store) s.whole in
      let kept : server'.params ≡ server.params = ap (λ p. p.1.params) s.whole in
      let logged : Logged cuckoo params cells IsLogging server.store s.store =
        subst (Logged cuckoo params cells IsLogging server.store) (ap (λ p. p.1) s.updates) (
          kept-apply_updates xxh3_64_with_seed cuckoo server.value_codec
            (Logged cuckoo params cells IsLogging server.store) (law.writes server.store)
            update.changes update.credits zero_report server.store
            (fresh-Logged cuckoo params cells IsLogging server.store fresh)) in
      let edits =
        fold-Replay pack params (cuckoo.drain_mutations s.store).0 (cells server.store)
          (cells s.store) s.rows (law.words server.store) logged.1 (rw geometry at s.folded) in
      (
        (λ bucket offset.
            rw (rows, store)
              (edits bucket offset
                ∙ ap (λ v. sub_ℕ v (cells server.store bucket offset))
                    (sym (law.drain_cells s.store bucket offset)))),
        rw store
            (record { logging = law.drain_logging s.store logged.0; empty = law.drained s.store }),
        kept ∙ geometry,
      )
