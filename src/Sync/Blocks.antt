-- ===== src/Sync/Blocks.antt =====
-- A client that ingests the deltas of the blocks that a server applied holds the difference of the
-- server's databases.
use private_eth_getbalance_w.Prelude.{
  ℕ, ◌/◌, ◌%◌, ◌≡◌, sym, ◌∙◌, arith, List, [], ◌∷◌, ok, All, length,
}
use private_eth_getbalance_w.Prelude.Int.{sub_ℕ, ◌+ℤ◌}
use private_eth_getbalance_w.Proto.Delta.{AddressHash, BlockUpdate, BlockDelta}
use private_eth_getbalance_w.Proto.Delta.Sums.{run_at}
use private_eth_getbalance_w.Server.Fold.{CuckooParams}
use private_eth_getbalance_w.Server.Fold.Replay.{Database}
use private_eth_getbalance_w.Server.Fold.Cells.{sub_ℕ_self}
use private_eth_getbalance_w.Server.RisePir.{BlockApplyReport, Cuckoo, Backend, RisePirServer}
use private_eth_getbalance_w.Server.RisePir.Apply.{apply_block_reporting}
use private_eth_getbalance_w.Server.RisePir.Apply.Difference.{
  LogsWrites, IsFresh, apply_block_difference,
}
use private_eth_getbalance_w.Client.Pending.{PendingDelta, new}
use private_eth_getbalance_w.Client.Pending.Sums.{pending_at}
use private_eth_getbalance_w.Client.Pending.Invariant.{IsPending}
use private_eth_getbalance_w.Client.Pending.Ingest.{ingest_all, ingest_all-new}

sub_ℕ_chain : (a b c : ℕ) → sub_ℕ b a +ℤ sub_ℕ c b ≡ sub_ℕ c a
unfolding ◌+ℤ◌
sub_ℕ_chain a b c = ground arith

-- The blocks that a server applied, one after another, each with success, and their deltas.
module _ (xxh3_64_with_seed : AddressHash → ℕ → ℕ) {S : Type 0} (cuckoo : Cuckoo S)
    (b : Backend) where
  pub data Blocks : RisePirServer S b → List BlockDelta → RisePirServer S b → Type 0 where
    none_more : (server : RisePirServer S b) → Blocks server [] server
    next_block :
        (update : BlockUpdate) (server mid last : RisePirServer S b) (delta : BlockDelta)
        (report : BlockApplyReport) (deltas : List BlockDelta)
        → apply_block_reporting xxh3_64_with_seed cuckoo update server ≡ (ok (delta, report), mid)
        → Blocks mid deltas last
        → Blocks server (delta ∷ deltas) last

module _ (xxh3_64_with_seed : AddressHash → ℕ → ℕ) {S : Type 0} (cuckoo : Cuckoo S) {b : Backend}
    (params : CuckooParams) (cells : S → Database) (IsLogging : S → Type 0)
    (law : LogsWrites cuckoo params cells IsLogging) where
  pub run_difference :
      (server last : RisePirServer S b) (deltas : List BlockDelta)
      → server.params ≡ params
      → IsFresh cuckoo IsLogging server.store
      → Blocks xxh3_64_with_seed cuckoo b server deltas last
      → (bucket offset : ℕ)
      → run_at (bucket / params.segment_size) (bucket % params.segment_size) offset deltas
        ≡ sub_ℕ (cells last.store bucket offset) (cells server.store bucket offset)
  unfolding run_at
  run_difference server last [] geometry fresh (none_more s) bucket offset =
      sym (sub_ℕ_self (cells server.store bucket offset))
  run_difference server last (delta ∷ deltas) geometry fresh
        (next_block update s mid l d report ds e rest) bucket offset =
      let (edits, fresh', geometry') =
        apply_block_difference xxh3_64_with_seed cuckoo params cells IsLogging law update server mid
          delta report geometry fresh e in
      rw (edits bucket offset, run_difference mid last deltas geometry' fresh' rest bucket offset)
        (sub_ℕ_chain (cells server.store bucket offset) (cells mid.store bucket offset)
          (cells last.store bucket offset))

  -- A client that was set up at a server's state, and ingested the deltas of all blocks that the server
  -- then applied, each with success, holds for each cell of each bucket what the cell holds at the server
  -- now less what it held at the set-up; its maps are ordered and free of zeros. The server's store has
  -- its log on, and empty at the set-up, and the log holds every change of a cell.
  pub synced_difference :
      (server last : RisePirServer S b) (deltas : List BlockDelta) (head : ℕ)
      (client : PendingDelta)
      → server.params ≡ params
      → IsFresh cuckoo IsLogging server.store
      → Blocks xxh3_64_with_seed cuckoo b server deltas last
      → ingest_all deltas (new params.arity head) ≡ (client, ok tt)
      → ((bucket offset : ℕ)
          → pending_at
              (bucket / params.segment_size)
              (bucket % params.segment_size)
              offset
              client.per_segment
            ≡ sub_ℕ (cells last.store bucket offset) (cells server.store bucket offset))
        × All IsPending client.per_segment
        × (length client.per_segment ≡ params.arity)
  synced_difference server last deltas head client geometry fresh blocks e =
      let (sums, valid, size) = ingest_all-new params.arity head deltas client e in
      (
        (λ bucket offset.
            sums (bucket / params.segment_size) (bucket % params.segment_size) offset
            ∙ run_difference server last deltas geometry fresh blocks bucket offset),
        valid,
        size,
      )
