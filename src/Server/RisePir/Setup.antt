-- ===== src/Server/RisePir/Setup.antt =====
-- crates/risepir-server/src/server.rs: construction, restart, rebuild and answering. A length that
-- an assertion checks panics where it does not hold.
pub mod Rebuild
pub mod Restart
pub mod Answer
use private_eth_getbalance_w.Prelude.{
  ℕ, zero, suc, ◌+◌, ◌*◌, List, [], ◌∷◌, map, Bool, Outcome, ok, err, panic, ◌>>=◌, or_panic,
  get_elem?, length, not, ◌==◌, if◌then◌else◌,
}
use private_eth_getbalance_w.Proto.Value.{ValueCodec, value_bits, div_ceil_8}
use private_eth_getbalance_w.Server.Fold.{CuckooParams}
use private_eth_getbalance_w.Server.RisePir.{
  ServerError, malformed_query, Cuckoo, Backend, RisePirServer, SetupBundle, slice, row_width,
  seg_cells,
}

module _ (b : Backend) where
  -- `server_setup` of the segments from `j` on, `left` of them. The call for a segment draws its own seed.
  unfoldable pub setup_segments :
      (ℕ → b.Seed)
      → b.Config
      → CuckooParams
      → List ℕ
      → ℕ
      → ℕ
      → Outcome ⊥ (List b.ServerParams × List b.HintMaterial × List b.Hint)
  setup_segments seeds config params cells zero j = ok ([], [], [])
  setup_segments seeds config params cells (suc left) j = do
    segment ← slice cells (j * seg_cells params) (seg_cells params)
    let (sp, mat, h) =
        b.server_setup (seeds j) config segment params.segment_size (row_width params)
          params.plaintext_bits
    (sps, mats, hs) ← setup_segments seeds config params cells left (j + 1)
    ok (sp ∷ sps, mat ∷ mats, h ∷ hs)

  -- `server_answer` of the queries, from segment `j` on.
  unfoldable pub answer_segments :
      CuckooParams
      → List b.ServerParams
      → List ℕ
      → ℕ
      → List b.Query
      → Outcome ServerError (List b.Response)
  answer_segments params backend_params cells j [] = ok []
  answer_segments params backend_params cells j (query ∷ queries) = do
    sp ← or_panic (get_elem? backend_params j)
    segment ← slice cells (j * seg_cells params) (seg_cells params)
    responses ← answer_segments params backend_params cells (j + 1) queries
    ok (b.server_answer sp segment params.segment_size (row_width params) query ∷ responses)

module _ {S : Type 0} (cuckoo : Cuckoo S) (b : Backend) where
  abbrev pub widths_agree : S → ValueCodec → Bool
  widths_agree store value_codec =
      div_ceil_8 (value_bits value_codec) == cuckoo.value_size_in_bytes store

  -- The store with its log on and empty.
  abbrev pub logged : S → S
  logged store = (cuckoo.drain_mutations (cuckoo.enable_mutation_log store)).1

  -- `seeds` are the draws of the segments' setups.
  unfoldable pub new : (ℕ → b.Seed) → S → b.Config → ValueCodec → ℕ → Outcome ⊥ (RisePirServer S b)
  new seeds store config value_codec genesis_block =
      if not (widths_agree store value_codec) then panic else do
        let params = cuckoo.params store
        (backend_params, material, hints) ←
            setup_segments b seeds config params (cuckoo.as_cells store) params.arity 0
        ok (record {
          store = logged store;
          params = params;
          backend_config = config;
          backend_params = backend_params;
          material = material;
          hints = hints;
          block = genesis_block;
          value_codec = value_codec;
        })

  unfoldable pub from_parts :
      S
      → b.Config
      → ValueCodec
      → List b.ServerParams
      → List b.Hint
      → ℕ
      → Outcome ⊥ (RisePirServer S b)
  from_parts store config value_codec backend_params hints block =
      let params = cuckoo.params store in
      if not (widths_agree store value_codec)
      then panic
      else if not (length backend_params == params.arity)
      then panic
      else if not (length hints == params.arity)
      then panic
      else ok (record {
        store = logged store;
        params = params;
        backend_config = config;
        backend_params = backend_params;
        material = map b.expand_hint_material backend_params;
        hints = hints;
        block = block;
        value_codec = value_codec;
      })

  -- `setup`
  abbrev pub setup : RisePirServer S b → SetupBundle b
  setup server = record {
    params = server.params;
    backend_params = server.backend_params;
    hints = server.hints;
    block = server.block;
  }

  -- `cells`
  abbrev pub cells : RisePirServer S b → List ℕ
  cells server = cuckoo.as_cells server.store

  unfoldable pub full_rebuild : (ℕ → b.Seed) → RisePirServer S b → Outcome ⊥ (RisePirServer S b)
  full_rebuild seeds server = do
    (backend_params, material, hints) ←
        setup_segments b seeds server.backend_config server.params (cuckoo.as_cells server.store)
          server.params.arity 0
    ok (record server {
      store = (cuckoo.drain_mutations server.store).1;
      backend_params = backend_params;
      material = material;
      hints = hints;
    })

  unfoldable pub answer :
      RisePirServer S b → List b.Query → Outcome ServerError (List b.Response × ℕ)
  answer server queries =
      if not (length queries == server.params.arity)
      then err (malformed_query server.params.arity (length queries))
      else do
        responses ←
            answer_segments b server.params server.backend_params (cuckoo.as_cells server.store) 0
              queries
        ok (responses, server.block)
