-- ===== src/Sync/Current.antt =====
-- A bucket's cells as of the set-up, corrected by the pending delta of a client that followed the blocks,
-- are the bucket's cells at the head.
use private_eth_getbalance_w.Prelude.{
  ℕ, zero, suc, ◌/◌, ◌%◌, ◌^◌, ◌≤◌, ◌<◌, ◌≡◌, refl, sym, ◌∙◌, ap, List, [], ◌∷◌, ok, some, All,
  length, get_elem?, All-get_elem?, get_or, get_elem?_total,
}
use private_eth_getbalance_w.Prelude.Maps.{nat_key}
use private_eth_getbalance_w.Proto.Delta.{AddressHash, BlockDelta}
use private_eth_getbalance_w.Server.Fold.{CuckooParams}
use private_eth_getbalance_w.Server.Fold.Replay.{Database}
use private_eth_getbalance_w.Server.RisePir.{Cuckoo, Backend, RisePirServer}
use private_eth_getbalance_w.Server.RisePir.Apply.Difference.{LogsWrites, IsFresh}
use private_eth_getbalance_w.Client.Pending.{PendingMap, new, segment, row_range}
use private_eth_getbalance_w.Client.Pending.Sums.{cell_at, pending_at}
use private_eth_getbalance_w.Client.Pending.Invariant.{IsPending}
use private_eth_getbalance_w.Client.Pending.Ingest.{ingest_all}
use private_eth_getbalance_w.Client.Query.{
  correct_cells, ClientBackend, RisePirClient, QueryCtx, bucket_cells,
}
use private_eth_getbalance_w.Sync.Blocks.{Blocks, synced_difference}
use private_eth_getbalance_w.Sync.Bucket.{correct_cells-row_range}

-- The cells of a bucket, of which there are no more than listed.
abbrev pub HoldsCells : Database → ℕ → List ℕ → Type 0
HoldsCells cells bucket xs = (offset : ℕ) → cells bucket offset ≡ get_or xs offset 0

pending_at_found :
    (s r o : ℕ) (ms : List PendingMap) (m : PendingMap)
    → get_elem? ms s ≡ some m
    → pending_at s r o ms ≡ cell_at r o m
unfolding pending_at
pending_at_found s r o [] m e = cc
pending_at_found zero r o (n ∷ ms) m e = let same : n ≡ m = cc in ap (cell_at r o) same
pending_at_found (suc s) r o (n ∷ ms) m e = pending_at_found s r o ms m e

-- A response to the query for row `row` of segment `j`, which the backend rewinds past the pending edits of
-- that segment and decodes to `pinned`.
module _ (b : ClientBackend) where
  pub record IsRewound (client : RisePirClient b) (ctx : QueryCtx b) (resp : List b.Response)
      (j row : ℕ) (pinned : List ℕ) : Type 0 where
    pub state : b.ClientState
    pub query : b.Query
    pub response : b.Response
    pub rewound : b.Response
    pub has_state : get_elem? client.states j ≡ some state
    pub has_query : get_elem? ctx.queries j ≡ some query
    pub has_response : get_elem? resp j ≡ some response
    pub has_row : get_elem? ctx.rows j ≡ some row
    pub rewinds :
        (m : PendingMap)
        → get_elem? client.delta.per_segment j ≡ some m
        → b.rewind_response state query response m ≡ ok rewound
    pub decodes : b.client_decode state rewound ≡ pinned

  bucket_cells_rewound :
      (client : RisePirClient b) (ctx : QueryCtx b) (resp : List b.Response) (j row : ℕ)
      (pinned : List ℕ) (m : PendingMap)
      → IsRewound client ctx resp j row pinned
      → get_elem? client.delta.per_segment j ≡ some m
      → bucket_cells b client ctx resp j
        ≡ correct_cells (2 ^ client.params.plaintext_bits) j row (row_range row m) pinned
  unfolding bucket_cells segment
  bucket_cells_rewound client ctx resp j row pinned m r at =
      rw (r.has_state, r.has_query, r.has_response, at, r.rewinds m at, r.has_row, r.decodes) refl

module _ (xxh3_64_with_seed : AddressHash → ℕ → ℕ) {S : Type 0} (cuckoo : Cuckoo S) {b : Backend}
    (params : CuckooParams) (cells : S → Database) (IsLogging : S → Type 0)
    (law : LogsWrites cuckoo params cells IsLogging) (client_backend : ClientBackend) where
  -- A client whose pending delta was set up at a server's state, and ingested the deltas of all blocks that
  -- the server then applied, each with success, reads in a bucket the cells that the bucket holds at the
  -- server now: where the backend rewinds and decodes the response to the cells that the bucket held at the
  -- set-up, `bucket_cells` returns the bucket's present cells. The bucket is of a segment of the server's
  -- geometry, and has at both times equally many cells, at most 2^16, the present ones below the bound of a
  -- cell; the store's log holds every change of a cell, and is on and empty at the set-up.
  pub synced_cells :
      (server last : RisePirServer S b) (deltas : List BlockDelta) (head : ℕ)
      (client : RisePirClient client_backend) (ctx : QueryCtx client_backend)
      (resp : List client_backend.Response) (bucket : ℕ) (pinned now : List ℕ)
      → server.params ≡ params
      → IsFresh cuckoo IsLogging server.store
      → Blocks xxh3_64_with_seed cuckoo b server deltas last
      → ingest_all deltas (new params.arity head) ≡ (client.delta, ok tt)
      → bucket / params.segment_size < params.arity
      → IsRewound client_backend client ctx resp
          (bucket / params.segment_size)
          (bucket % params.segment_size)
          pinned
      → HoldsCells (cells server.store) bucket pinned
      → HoldsCells (cells last.store) bucket now
      → length pinned ≡ length now
      → length now ≤ 2 ^ 16
      → All (λ v. v < 2 ^ client.params.plaintext_bits) now
      → bucket_cells client_backend client ctx resp (bucket / params.segment_size) ≡ ok now
  synced_cells server last deltas head client ctx resp bucket pinned now geometry fresh blocks e
        inside r before after n size small =
      let (sums, valid, arity) =
        synced_difference xxh3_64_with_seed cuckoo params cells IsLogging law server last deltas
          head client.delta geometry fresh blocks e in
      let j = bucket / params.segment_size in
      let row = bucket % params.segment_size in
      let (m, at) = get_elem?_total client.delta.per_segment j (rw arity inside) in
      bucket_cells_rewound client_backend client ctx resp j row pinned m r at
      ∙ correct_cells-row_range (2 ^ client.params.plaintext_bits) j row m pinned now
          (All-get_elem? IsPending client.delta.per_segment j m valid at)
          (λ o.
            sym (pending_at_found j row o client.delta.per_segment m at)
            ∙ sums bucket o
            ∙ rw (before o, after o) refl)
          n size small
