-- ===== src/Sync/Lookup.antt =====
-- The whole way of a lookup: the server applies blocks, the client follows them, and the answer to its query
-- is what the server's store holds.
use private_eth_getbalance_w.Prelude.{
  ℕ, ◌+◌, ◌/◌, ◌%◌, ◌^◌, ◌≤◌, ◌<◌, ◌≡◌, ◌∙◌, subst, arith, List, ok, some, All, length, get_elem?,
  found_within,
}
use private_eth_getbalance_w.Proto.Delta.{AddressHash, BlockDelta}
use private_eth_getbalance_w.Server.Verified.{Located, locate}
use private_eth_getbalance_w.Server.Verified.Found.{probes}
use private_eth_getbalance_w.Server.Fold.{CuckooParams}
use private_eth_getbalance_w.Server.Fold.Replay.{Database}
use private_eth_getbalance_w.Server.RisePir.{Cuckoo, Backend, RisePirServer}
use private_eth_getbalance_w.Server.RisePir.Apply.Difference.{LogsWrites, IsFresh}
use private_eth_getbalance_w.Client.Pending.{new}
use private_eth_getbalance_w.Client.Pending.Ingest.{ingest_all}
use private_eth_getbalance_w.Client.Query.{
  ClientBackend, RisePirClient, QueryCtx, bucket_cells, finish,
}
use private_eth_getbalance_w.Client.Query.Finish.{gather, IsContext}
use private_eth_getbalance_w.Sync.Blocks.{Blocks}
use private_eth_getbalance_w.Sync.Current.{HoldsCells, IsRewound, synced_cells}
use private_eth_getbalance_w.Sync.Gather.{
  Unpacks, ReadsBucket, gather-probes, Answers, Agrees, finish-Answers,
}

module _ (xxh3_64_with_seed : AddressHash → ℕ → ℕ) {S : Type 0} (cuckoo : Cuckoo S) {b : Backend}
    (params : CuckooParams) (cells : S → Database) (IsLogging : S → Type 0)
    (law : LogsWrites cuckoo params cells IsLogging) (client_backend : ClientBackend) where
  -- The query of segment `j` is for a bucket of it: the backend decodes its response, rewound, to the cells
  -- that the bucket held at the first server, and those it holds at the last are in range, and unpack to the
  -- slots of the store.
  pub record IsProbe (server last : RisePirServer S b) (client : RisePirClient client_backend)
      (ctx : QueryCtx client_backend) (resp : List client_backend.Response) (j bucket : ℕ)
      : Type 0 where
    pub segment : bucket / params.segment_size ≡ j
    pub pinned : List ℕ
    pub now : List ℕ
    pub rewound :
        IsRewound client_backend client ctx resp
          (bucket / params.segment_size)
          (bucket % params.segment_size)
          pinned
    pub before : HoldsCells (cells server.store) bucket pinned
    pub after : HoldsCells (cells last.store) bucket now
    pub same_length : length pinned ≡ length now
    pub width : length now ≤ 2 ^ 16
    pub small : All (λ v. v < 2 ^ client.params.plaintext_bits) now
    pub unpacks : Unpacks client.params (cuckoo.slots last.store) bucket now

  -- A client that was set up at a server's state, and ingested the deltas of all blocks that the server then
  -- applied, each with success, gets of a lookup at its head what the server's verified scan finds in the
  -- store as it is now: where the scan reports the key's own entry, `finish` returns its balance, and where
  -- it reports that the key is absent, `finish` returns that it was not found. Conditions: the client's
  -- geometry and codec are those of the store, and the responses and the context are of that geometry and
  -- for the key; the backend decodes each response, rewound, to the cells that its bucket held at the
  -- set-up; a bucket has at most 2^16 cells, all below the bound of a cell, and unpacks to the store's slots,
  -- of which fewer than 2^32 are scanned; fingerprints and tags are u64s; the store's log holds every change
  -- of a cell, and is on and empty at the set-up.
  pub synced_lookup :
      (server last : RisePirServer S b) (deltas : List BlockDelta) (head : ℕ)
      (client : RisePirClient client_backend) (key : AddressHash) (ctx : QueryCtx client_backend)
      (resp : List client_backend.Response) (l : Located)
      → server.params ≡ params
      → IsFresh cuckoo IsLogging server.store
      → Blocks xxh3_64_with_seed cuckoo b server deltas last
      → ingest_all deltas (new params.arity head) ≡ (client.delta, ok tt)
      → client.params.arity ≡ params.arity
      → Agrees xxh3_64_with_seed client_backend client key (cuckoo.slots last.store)
      → IsContext xxh3_64_with_seed client_backend client key ctx resp
      → ((j bucket : ℕ)
          → get_elem? (client.params.candidate_buckets key).1 j ≡ some bucket
          → IsProbe server last client ctx resp j bucket)
      → locate xxh3_64_with_seed client.value_codec key (cuckoo.slots last.store) ≡ ok l
      → Answers l (finish xxh3_64_with_seed client_backend client key ctx resp client.delta.head)
  synced_lookup server last deltas head client key ctx resp l geometry fresh blocks e arity agrees
        context probe located =
      let buckets = (client.params.candidate_buckets key).1 in
      let read : (i bucket : ℕ)
          → get_elem? buckets i ≡ some bucket
          → ReadsBucket client_backend client ctx resp (cuckoo.slots last.store) (0 + i) bucket =
        λ i bucket at.
          let p = probe i bucket at in
          let inside : bucket / params.segment_size < params.arity =
            rw (p.segment) (omega (arith, found_within buckets i bucket at, agrees.count, arity)) in
          let current =
            synced_cells xxh3_64_with_seed cuckoo params cells IsLogging law client_backend server
              last deltas head client ctx resp bucket p.pinned p.now geometry fresh blocks e inside
              p.rewound p.before p.after p.same_length p.width p.small in
          (
            p.now,
            subst (λ k. bucket_cells client_backend client ctx resp k ≡ ok p.now)
                (p.segment ∙ zero_add i) current,
            p.unpacks,
          ) in
      finish-Answers xxh3_64_with_seed client_backend client key (cuckoo.slots last.store) ctx resp
        l agrees context
        (subst
          (λ n.
            gather client_backend client ctx resp n 0
            ≡ ok (probes (cuckoo.slots last.store) buckets))
          agrees.count
          (gather-probes client_backend client ctx resp (cuckoo.slots last.store) buckets 0
            agrees.bucket_size read))
        located
    where
      zero_add : (i : ℕ) → i ≡ 0 + i
      zero_add i = omega arith
