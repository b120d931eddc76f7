-- ===== src/Server/RisePir/Setup/Restart.antt =====
-- The invariant of the servers that construction, blocks and rebuilds lead to, and the restart from
-- their persisted parts.
use private_eth_getbalance_w.Prelude.{
  ℕ, ◌≡◌, refl, sym, subst, ◌∙◌, ap, List, map, Outcome, ok, err, panic, length, Bool-cases, inl,
  inr, ◌==◌, ==_iff, true, leb,
}
use private_eth_getbalance_w.Proto.Delta.{AddressHash, BlockUpdate, BlockDelta}
use private_eth_getbalance_w.Proto.Value.{ValueCodec, div_ceil_8, value_bits}
use private_eth_getbalance_w.Server.RisePir.{
  ServerError, BlockApplyReport, Cuckoo, Backend, RisePirServer,
}
use private_eth_getbalance_w.Server.RisePir.Apply.{
  zero_report, state_of, reject_block, apply_updates, finish_block, conclude_block,
  apply_block_reporting,
}
use private_eth_getbalance_w.Server.RisePir.Apply.Epoch.{finish_block-ok}
use private_eth_getbalance_w.Server.RisePir.Geometry.{geometry, IsLawful, geometry-apply_updates}
use private_eth_getbalance_w.Server.RisePir.Setup.{
  widths_agree, logged, new, from_parts, setup, full_rebuild,
}
use private_eth_getbalance_w.Server.RisePir.Setup.Rebuild.{
  IsExpandable, setup_segments_lem, new-eq-ok, full_rebuild-eq-ok,
}

module _ {S : Type 0} (cuckoo : Cuckoo S) (b : Backend) where
  -- The server's geometry is its store's and its codec's, it has parameters and a hint per segment, and
  -- its material is what the parameters expand to.
  pub record IsServer (server : RisePirServer S b) : Type 0 where
    pub params : server.params ≡ cuckoo.params server.store
    pub widths :
        (div_ceil_8 (value_bits server.value_codec) ≡ cuckoo.value_size_in_bytes server.store)
    pub backend : length server.backend_params ≡ server.params.arity
    pub hints : length server.hints ≡ server.params.arity
    pub material : server.material ≡ map b.expand_hint_material server.backend_params

  geometry-logged :
      IsLawful cuckoo → (s : S) → geometry cuckoo (logged cuckoo b s) ≡ geometry cuckoo s
  geometry-logged law s = law.drain (cuckoo.enable_mutation_log s) ∙ law.enable s

  new-IsServer :
      (seeds : ℕ → b.Seed) (store : S) (config : b.Config) (codec : ValueCodec) (genesis : ℕ)
      (server : RisePirServer S b)
      → IsLawful cuckoo
      → IsExpandable b
      → new cuckoo b seeds store config codec genesis ≡ ok server
      → IsServer server
  new-IsServer seeds store config codec genesis server law expand h =
      let (right, sps, mats, hs, prepared, at) =
        new-eq-ok cuckoo b seeds store config codec genesis server h in
      let (m, n, k) = setup_segments_lem b seeds config _ _ _ 0 sps mats hs expand prepared in
      let same = geometry-logged law store in
      rw at (record {
        params = ap (λ p. p.0) (sym same);
        widths = (==_iff _ _).0 right ∙ ap (λ p. p.1) (sym same);
        backend = m;
        hints = n;
        material = k;
      })

  -- Another store of the same geometry, as many hints, and another head.
  moved-IsServer :
      (server : RisePirServer S b) (store : S) (hints : List b.Hint) (block : ℕ)
      → geometry cuckoo store ≡ geometry cuckoo server.store
      → length hints ≡ length server.hints
      → IsServer server
      → IsServer (record server { store = store; hints = hints; block = block })
  moved-IsServer server store hints block g n h = record {
    params = h.params ∙ ap (λ p. p.0) (sym g);
    widths = h.widths ∙ ap (λ p. p.1) (sym g);
    backend = h.backend;
    hints = n ∙ h.hints;
    material = h.material;
  }

  rebuilt-IsServer :
      (seeds : ℕ → b.Seed) (server server' : RisePirServer S b)
      → IsLawful cuckoo
      → IsExpandable b
      → full_rebuild cuckoo b seeds server ≡ ok server'
      → IsServer server
      → IsServer server'
  rebuilt-IsServer seeds server server' law expand e h =
      let (sps, mats, hs, prepared, at) = full_rebuild-eq-ok cuckoo b seeds server server' e in
      let (m, n, k) =
        setup_segments_lem b seeds server.backend_config server.params
          (cuckoo.as_cells server.store) server.params.arity 0 sps mats hs expand prepared in
      let g = law.drain server.store in
      rw at (record {
        params = h.params ∙ ap (λ p. p.0) (sym g);
        widths = h.widths ∙ ap (λ p. p.1) (sym g);
        backend = m;
        hints = n;
        material = k;
      })

  from_parts_lem :
      (server : RisePirServer S b)
      → IsServer server
      → from_parts cuckoo b server.store server.backend_config server.value_codec
          server.backend_params server.hints server.block
        ≡ ok (record server { store = logged cuckoo b server.store })
  unfolding from_parts
  from_parts_lem server h =
      let w : widths_agree cuckoo b server.store server.value_codec ≡ true =
        (==_iff _ _).1 h.widths in
      let m : (length server.backend_params == (cuckoo.params server.store).arity) ≡ true =
        (==_iff _ _).1 (h.backend ∙ ap (λ p. p.arity) h.params) in
      let n : (length server.hints == (cuckoo.params server.store).arity) ≡ true =
        (==_iff _ _).1 (h.hints ∙ ap (λ p. p.arity) h.params) in
      rw (w, m, n, ← h.material, ← h.params) refl

module _ (xxh3_64_with_seed : AddressHash → ℕ → ℕ) {S : Type 0} (cuckoo : Cuckoo S)
    (b : Backend) where
  finished-IsServer :
      (update : BlockUpdate) (counts : BlockApplyReport) (server : RisePirServer S b)
      (run : Outcome ServerError ((BlockDelta × BlockApplyReport) × RisePirServer S b))
      → IsLawful cuckoo
      → finish_block cuckoo update counts server ≡ run
      → IsServer cuckoo b server
      → IsServer cuckoo b (state_of server run).1
  finished-IsServer update counts server (ok (result, server')) law e h =
      let (rows, hints, folded, n, patched, whole) =
        finish_block-ok xxh3_64_with_seed cuckoo update counts server server' result e in
      rw (ap (λ p. p.1) whole) (
        moved-IsServer cuckoo b server (cuckoo.drain_mutations server.store).1 hints update.block
          (law.drain server.store) n h)
  finished-IsServer update counts server (err x) law e h = h
  finished-IsServer update counts server panic law e h = h

  concluded-IsServer :
      (update : BlockUpdate) (server : RisePirServer S b)
      (run : Outcome ServerError BlockApplyReport × S)
      → IsLawful cuckoo
      → geometry cuckoo run.1 ≡ geometry cuckoo server.store
      → IsServer cuckoo b server
      → IsServer cuckoo b (conclude_block cuckoo update server run).1
  unfolding conclude_block reject_block
  concluded-IsServer update server (ok counts, store) law g h =
      finished-IsServer update counts (record server { store = store }) _ law refl
        (moved-IsServer cuckoo b server store server.hints server.block g refl h)
  concluded-IsServer update server (err e, store) law g h =
      moved-IsServer cuckoo b server (cuckoo.drain_mutations store).1 server.hints server.block
        (law.drain store ∙ g) refl h
  concluded-IsServer update server (panic, store) law g h =
      moved-IsServer cuckoo b server store server.hints server.block g refl h

  applied-IsServer :
      (update : BlockUpdate) (server : RisePirServer S b)
      → IsLawful cuckoo
      → IsServer cuckoo b server
      → IsServer cuckoo b (apply_block_reporting xxh3_64_with_seed cuckoo update server).1
  unfolding apply_block_reporting apply_updates
  applied-IsServer update server law h = elim (Bool-cases (leb update.block server.block)) [
    | inl late ↦ rw late h
    | inr next ↦ rw next (
        concluded-IsServer update server _ law
          (geometry-apply_updates xxh3_64_with_seed cuckoo server.value_codec law update.changes
            update.credits zero_report server.store)
          h)
  ]

  -- The servers that a construction leads to, by blocks, applied or refused, and by rebuilds, whatever the
  -- setups draw.
  pub data Reachable : RisePirServer S b → Type 0 where
    built :
        (seeds : ℕ → b.Seed) (store : S) (config : b.Config) (codec : ValueCodec) (genesis : ℕ)
        {server : RisePirServer S b}
        → new cuckoo b seeds store config codec genesis ≡ ok server
        → Reachable server
    applied :
        (update : BlockUpdate) (server : RisePirServer S b)
        → Reachable server
        → {result : Outcome ServerError (BlockDelta × BlockApplyReport)}
          {server' : RisePirServer S b}
        → apply_block_reporting xxh3_64_with_seed cuckoo update server ≡ (result, server')
        → Reachable server'
    rebuilt :
        (seeds : ℕ → b.Seed) (server : RisePirServer S b)
        → Reachable server
        → {server' : RisePirServer S b} → full_rebuild cuckoo b seeds server ≡ ok server'
        → Reachable server'

  -- A server that a construction leads to, by blocks, applied or refused, and by rebuilds, has the store's
  -- and the codec's geometry, parameters and a hint for each segment, and the material that its parameters
  -- expand to. The conditions are the store's laws, and that a setup's material is what its parameters
  -- expand to.
  pub Reachable-IsServer :
      (server : RisePirServer S b)
      → IsLawful cuckoo
      → IsExpandable b
      → Reachable server
      → IsServer cuckoo b server
  Reachable-IsServer server law expand (built seeds store config codec genesis h) =
      new-IsServer cuckoo b seeds store config codec genesis server law expand h
  Reachable-IsServer server law expand (applied update before r h) =
      subst (IsServer cuckoo b) (ap (λ p. p.1) h)
        (applied-IsServer update before law (Reachable-IsServer before law expand r))
  Reachable-IsServer server law expand (rebuilt seeds before r h) =
      rebuilt-IsServer cuckoo b seeds before server law expand h
        (Reachable-IsServer before law expand r)

  -- A server reassembled from the store, the parameters and the hints that a reachable server persists, with
  -- its configuration and head, is that server again, its store's log switched on and emptied.
  pub from_parts-setup :
      (server : RisePirServer S b)
      → IsLawful cuckoo
      → IsExpandable b
      → Reachable server
      → from_parts cuckoo b server.store server.backend_config server.value_codec
          (setup cuckoo b server).backend_params
          (setup cuckoo b server).hints
          (setup cuckoo b server).block
        ≡ ok (record server { store = logged cuckoo b server.store })
  from_parts-setup server law expand r =
      from_parts_lem cuckoo b server (Reachable-IsServer server law expand r)
