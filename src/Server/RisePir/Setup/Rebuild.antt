-- ===== src/Server/RisePir/Setup/Rebuild.antt =====
-- The preprocessing of the segments: its lengths, and what a rebuild gives.
use private_eth_getbalance_w.Prelude.{
  ℕ, zero, suc, ◌+◌, ◌*◌, ◌≡◌, refl, sym, ◌∙◌, ap, List, [], ◌∷◌, map, ok, length, >>=-eq-ok,
  ok-injective, Bool-cases, inl, inr, true,
}
use private_eth_getbalance_w.Prelude.{◌≤◌, ◌<◌, take, drop, leb, some, get_elem?, arith}
use native.Mathlib.Nat.{suc-mul, mul-le-mul_right}
use private_eth_getbalance_w.Proto.Value.{ValueCodec}
use private_eth_getbalance_w.Server.Fold.{CuckooParams}
use private_eth_getbalance_w.Server.RisePir.{
  Cuckoo, Backend, RisePirServer, slice, row_width, seg_cells,
}
use private_eth_getbalance_w.Server.RisePir.Setup.{
  setup_segments, widths_agree, logged, new, full_rebuild,
}

-- The cells of segment j end before those of `arity` segments do.
pub segment_end : (j arity s : ℕ) {n : ℕ} → j < arity → arity * s ≤ n → j * s + s ≤ n
segment_end j arity s h k =
    omega (arith, suc-mul j s, mul-le-mul_right {m = suc j} {n = arity} s (omega (arith, h)), k)

pub leb_of_le : {a c : ℕ} → a ≤ c → leb a c ≡ true
leb_of_le h = ground arith

module _ (b : Backend) where
  -- The material of a setup is what its parameters expand to.
  abbrev pub IsExpandable : Type 0
  IsExpandable =
      (seed : b.Seed) (config : b.Config) (segment : List ℕ) (rows width bits : ℕ)
      → (b.server_setup seed config segment rows width bits).1
        ≡ b.expand_hint_material (b.server_setup seed config segment rows width bits).0

  pub setup_segments_lem :
      (seeds : ℕ → b.Seed) (config : b.Config) (params : CuckooParams) (cells : List ℕ) (left j : ℕ)
      (sps : List b.ServerParams) (mats : List b.HintMaterial) (hs : List b.Hint)
      → IsExpandable
      → setup_segments b seeds config params cells left j ≡ ok (sps, mats, hs)
      → (length sps ≡ left) × (length hs ≡ left) × (mats ≡ map b.expand_hint_material sps)
  unfolding setup_segments
  setup_segments_lem seeds config params cells zero j sps mats hs law e =
      let same : ([], [], []) ≡ (sps, mats, hs) = ok-injective _ _ e in
      (
        ap length (sym (ap (λ p. p.0) same)),
        ap length (sym (ap (λ p. p.2) same)),
        sym (ap (λ p. p.1) same) ∙ ap (map b.expand_hint_material) (ap (λ p. p.0) same),
      )
  setup_segments_lem seeds config params cells (suc left) j sps mats hs law e =
      let (segment, sliced, e) =
        >>=-eq-ok (slice cells (j * seg_cells params) (seg_cells params)) _ e in
      let here =
        b.server_setup (seeds j) config segment params.segment_size (row_width params)
          params.plaintext_bits in
      let ((sps', mats', hs'), rest, e) =
        >>=-eq-ok (setup_segments b seeds config params cells left (j + 1)) _ e in
      let (m, n, k) =
        setup_segments_lem seeds config params cells left (j + 1) sps' mats' hs' law rest in
      let same : (here.0 ∷ sps', here.1 ∷ mats', here.2 ∷ hs') ≡ (sps, mats, hs) =
        ok-injective _ _ e in
      (
        ap length (sym (ap (λ p. p.0) same)) ∙ ap suc m,
        ap length (sym (ap (λ p. p.2) same)) ∙ ap suc n,
        sym (ap (λ p. p.1) same)
            ∙ rw
                (
                  law (seeds j) config segment params.segment_size (row_width params)
                      params.plaintext_bits,
                  k,
                )
                refl
            ∙ ap (map b.expand_hint_material) (ap (λ p. p.0) same),
      )

module _ {S : Type 0} (cuckoo : Cuckoo S) (b : Backend) where
  -- What a construction comes to.
  pub new-eq-ok :
      (seeds : ℕ → b.Seed) (store : S) (config : b.Config) (codec : ValueCodec) (genesis : ℕ)
      (server : RisePirServer S b)
      → new cuckoo b seeds store config codec genesis ≡ ok server
      → (widths_agree cuckoo b store codec ≡ true)
        × (sps : List b.ServerParams) × (mats : List b.HintMaterial) × (hs : List b.Hint)
        × (setup_segments b seeds config
              (cuckoo.params store)
              (cuckoo.as_cells store)
              (cuckoo.params store).arity
              0
            ≡ ok (sps, mats, hs))
        × (server ≡ record {
          store = logged cuckoo b store;
          params = cuckoo.params store;
          backend_config = config;
          backend_params = sps;
          material = mats;
          hints = hs;
          block = genesis;
          value_codec = codec;
        })
  unfolding new
  new-eq-ok seeds store config codec genesis server h =
      elim (Bool-cases (widths_agree cuckoo b store codec)) [
        | inr wrong ↦ absurd (cc (rw wrong at h))
        | inl right ↦
            let ((sps, mats, hs), prepared, e) =
              >>=-eq-ok
                (setup_segments b seeds config (cuckoo.params store) (cuckoo.as_cells store)
                  (cuckoo.params store).arity 0)
                _ (rw right at h) in
            (right, sps, mats, hs, prepared, sym (ok-injective _ server e))
      ]

  pub full_rebuild-eq-ok :
      (seeds : ℕ → b.Seed) (server server' : RisePirServer S b)
      → full_rebuild cuckoo b seeds server ≡ ok server'
      → (sps : List b.ServerParams) × (mats : List b.HintMaterial) × (hs : List b.Hint)
        × (setup_segments b seeds server.backend_config server.params
              (cuckoo.as_cells server.store)
              server.params.arity
              0
            ≡ ok (sps, mats, hs))
        × (server' ≡ record server {
          store = (cuckoo.drain_mutations server.store).1;
          backend_params = sps;
          material = mats;
          hints = hs;
        })
  unfolding full_rebuild
  full_rebuild-eq-ok seeds server server' h =
      let ((sps, mats, hs), prepared, e) =
        >>=-eq-ok
          (setup_segments b seeds server.backend_config server.params (cuckoo.as_cells server.store)
            server.params.arity 0)
          _ h in
      (sps, mats, hs, prepared, sym (ok-injective _ server' e))

-- The setup of segment `j`, from the draw for it and its own cells.
module _ (b : Backend) (seeds : ℕ → b.Seed) (config : b.Config) (params : CuckooParams)
    (cells : List ℕ) where
  abbrev pub set_up : ℕ → b.ServerParams × b.HintMaterial × b.Hint
  set_up j =
      b.server_setup (seeds j) config (take (seg_cells params) (drop (j * seg_cells params) cells))
        params.segment_size (row_width params) params.plaintext_bits

  -- The lists hold at `i` the parts of the setup of segment `j`.
  abbrev pub IsSetUp : List b.ServerParams → List b.HintMaterial → List b.Hint → ℕ → ℕ → Type 0
  IsSetUp sps mats hs i j =
      (get_elem? sps i ≡ some (set_up j).0)
      × (get_elem? mats i ≡ some (set_up j).1)
      × (get_elem? hs i ≡ some (set_up j).2)

module _ {S : Type 0} (cuckoo : Cuckoo S) (b : Backend) where
  -- What a rebuild leaves: the store with its log drained, and for each segment what the backend sets up of
  -- the segment's own cells with the seed drawn for it.
  pub record IsRebuilt (seeds : ℕ → b.Seed) (server server' : RisePirServer S b) : Type 0 where
    pub params_count : length server'.backend_params ≡ server.params.arity
    pub material_count : length server'.material ≡ server.params.arity
    pub hint_count : length server'.hints ≡ server.params.arity
    pub each :
        (j : ℕ)
        → j < server.params.arity
        → IsSetUp b seeds server.backend_config server.params
            (cuckoo.as_cells server.store)
            server'.backend_params
            server'.material
            server'.hints
            j
            j
    pub others : server' ≡ record server {
      store = (cuckoo.drain_mutations server.store).1;
      backend_params = server'.backend_params;
      material = server'.material;
      hints = server'.hints;
    }
