-- ===== src/Server/RisePir/Apply/Completes.antt =====
-- A later block whose updates succeed completes: neither the fold nor the patches panic.
use private_eth_getbalance_w.Prelude.{
  ℕ, ◌+◌, ◌≤◌, ◌<◌, ◌≡◌, refl, ◌∙◌, ap, arith, List, [], ◌∷◌, All, length, length-set, length-map,
  get_elem?_total, set, ok, leb, false,
}
use private_eth_getbalance_w.Proto.Delta.{AddressHash, BlockUpdate, BlockDelta, SegmentRowDeltas}
use private_eth_getbalance_w.Server.Fold.Total.{IsInside, fold_mutations_total}
use private_eth_getbalance_w.Server.RisePir.{BlockApplyReport, Cuckoo, Backend, RisePirServer}
use private_eth_getbalance_w.Server.RisePir.Kept.{IsKept, kept-apply_updates}
use private_eth_getbalance_w.Server.RisePir.Apply.{
  patch_hint, patch_hints, zero_report, finish_block, conclude_block, apply_updates,
  apply_block_reporting,
}
use private_eth_getbalance_w.Server.RisePir.Setup.Restart.{IsServer}

module _ {S : Type 0} {b : Backend} where
  -- The server has parameters, material and a hint for each of `n` segments.
  record HasSegments (n : ℕ) (server : RisePirServer S b) : Type 0 where
    params : n ≤ length server.backend_params
    material : n ≤ length server.material
    hints : n ≤ length server.hints

  patch_hint_total :
      (n j : ℕ) (deltas : SegmentRowDeltas) (server : RisePirServer S b)
      → HasSegments n server
      → j < n
      → (server' : RisePirServer S b) × (patch_hint j deltas server ≡ ok server')
        × HasSegments n server'
        × (server'.block ≡ server.block)
  unfolding patch_hint
  patch_hint_total n j [] server h l = (server, refl, h, refl)
  patch_hint_total n j (row ∷ deltas) server h l =
      let (p, p_at) = get_elem?_total server.backend_params j (omega (arith, h.params, l)) in
      let (m, m_at) = get_elem?_total server.material j (omega (arith, h.material, l)) in
      let (old, old_at) = get_elem?_total server.hints j (omega (arith, h.hints, l)) in
      let new = b.server_patch_hint p m old (row ∷ deltas) in
      (
        record server { hints = set server.hints j new },
        rw (p_at, m_at, old_at) refl,
        record {
          params = h.params;
          material = h.material;
          hints = omega (arith, h.hints, length-set server.hints j new);
        },
        refl,
      )

  patch_hints_total :
      (n j : ℕ) (row_deltas : List SegmentRowDeltas) (server : RisePirServer S b)
      → HasSegments n server
      → j + length row_deltas ≤ n
      → (server' : RisePirServer S b) × (patch_hints j row_deltas server ≡ ok server')
  unfolding patch_hints
  patch_hints_total n j [] server h l = (server, refl)
  patch_hints_total n j (deltas ∷ row_deltas) server h l =
      let (mid, first, k, at) = patch_hint_total n j deltas server h (omega (arith, l)) in
      let (server', rest) = patch_hints_total n (j + 1) row_deltas mid k (omega (arith, l)) in
      (server', rw first rest)

module _ (xxh3_64_with_seed : AddressHash → ℕ → ℕ) {S : Type 0} (cuckoo : Cuckoo S)
    (b : Backend) where
  -- Every mutation in the store's log is inside the server's geometry.
  abbrev pub LogInside : RisePirServer S b → S → Type 0
  LogInside server s =
      All (IsInside (cuckoo.pack_slot_cells server.params) server.params)
        (cuckoo.drain_mutations s).0

  apply_updates_inside :
      (update : BlockUpdate) (server : RisePirServer S b)
      → IsKept cuckoo (LogInside server)
      → (cuckoo.drain_mutations server.store).0 ≡ []
      → LogInside server (apply_updates xxh3_64_with_seed cuckoo update server).1
  unfolding apply_updates
  apply_updates_inside update server law empty =
      kept-apply_updates xxh3_64_with_seed cuckoo server.value_codec (LogInside server) law
        update.changes update.credits zero_report server.store (rw empty tt)

  -- On a server with parameters and a hint for each segment, whose store's log is empty and is written inside
  -- the geometry, a block later than the server's whose changes and credits are all applied completes: it
  -- returns a delta of its number, and the server is at it.
  pub apply_block_completes :
      (update : BlockUpdate) (server : RisePirServer S b) (counts : BlockApplyReport)
      → IsServer cuckoo b server
      → IsKept cuckoo (LogInside server)
      → (cuckoo.drain_mutations server.store).0 ≡ []
      → server.block < update.block
      → (apply_updates xxh3_64_with_seed cuckoo update server).0 ≡ ok counts
      → (delta : BlockDelta) × (report : BlockApplyReport) × (server' : RisePirServer S b)
        × (apply_block_reporting xxh3_64_with_seed cuckoo update server
            ≡ (ok (delta, report), server'))
        × (delta.block ≡ update.block)
        × (server'.block ≡ update.block)
  unfolding apply_block_reporting conclude_block finish_block
  apply_block_completes update server counts h law empty later e =
      let store : S = (apply_updates xxh3_64_with_seed cuckoo update server).1 in
      let run : apply_updates xxh3_64_with_seed cuckoo update server ≡ (ok counts, store) =
        λ t. (e t, store) in
      let inside : LogInside server store = apply_updates_inside update server law empty in
      let (rows, folded, n) =
        fold_mutations_total (cuckoo.pack_slot_cells server.params) server.params
          (cuckoo.drain_mutations store).0 inside in
      let expanded : length server.material ≡ length server.backend_params =
        ap length h.material ∙ length-map server.backend_params b.expand_hint_material in
      let segments : HasSegments server.params.arity
          (record server { store = (cuckoo.drain_mutations store).1 }) =
        record {
          params = omega (arith, h.backend);
          material = omega (arith, h.backend, expanded);
          hints = omega (arith, h.hints);
        } in
      let (server', patched) =
        patch_hints_total server.params.arity 0 rows
          (record server { store = (cuckoo.drain_mutations store).1 }) segments
          (omega (arith, n)) in
      let on : leb update.block server.block ≡ false = ground arith in
      rw (on, run, folded, patched) (_, _, _, refl, refl, refl)
