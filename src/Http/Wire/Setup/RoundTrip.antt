-- ===== src/Http/Wire/Setup/RoundTrip.antt =====
-- A set-up bundle that the format can carry decodes to itself.
use private_eth_getbalance_w.Prelude.{
  ℕ, ◌+◌, ◌*◌, ◌^◌, ◌<◌, ◌≡◌, refl, sym, ◌∙◌, arith, List, [], ◌∷◌, ◌++◌, length, All, map, Outcome,
  ok, true, ltb,
}
use private_eth_getbalance_w.Proto.Codec.{to_le_bytes}
use private_eth_getbalance_w.Http.Wire.{
  WireError, SchemeKind, segmented_2ary, segmented_3ary, segmented_4ary, arity_of, SimpleParams,
  SimpleServerParams, SetupBundle, setup_magic, read_u8, end_of_message,
}
use private_eth_getbalance_w.Http.Wire.Field.{
  IsVector, vector_bytes, write_vectors-vector_bytes, read_u32-to_le_bytes, read_u64-to_le_bytes,
  read_chunk-append, read_vector-encode_u32s,
}
use private_eth_getbalance_w.Http.Wire.RoundTrip.{expect_magic-append}
use private_eth_getbalance_w.Http.Wire.Setup.{
  server_params_bytes, write_server_params, setup_head, encode_setup, scheme_of, are_valid,
  read_server_params, read_backend_params, read_hints, decode_setup,
}
use mathlib.Core.List.{append-nil, append_assoc}

-- The parameters of a segment have the widths of their fields, and are ones that the scheme takes.
pub record IsServerParams (sp : SimpleServerParams) : Type 0 where
  pub lwe_dim : sp.params.lwe_dim < 2 ^ 32
  pub plaintext_bits : sp.params.plaintext_bits < 2 ^ 32
  pub sigma : sp.params.sigma < 2 ^ 64
  pub seed : length sp.params.seed ≡ 16
  pub n_rows : sp.n_rows < 2 ^ 32
  pub row_width : sp.row_width < 2 ^ 32
  pub k : sp.k < 2 ^ 32
  pub reshape_rows : sp.reshape_rows < 2 ^ 32
  pub reshape_row_width : sp.reshape_row_width < 2 ^ 32
  pub valid : are_valid sp.params.lwe_dim sp.params.plaintext_bits sp.params.sigma ≡ true

abbrev pub hint_len : SimpleServerParams → ℕ
hint_len sp = sp.params.lwe_dim * sp.reshape_row_width

-- A bundle has parameters and a hint for each segment of its scheme, each hint of its segment's length.
pub record IsBundle (bundle : SetupBundle) : Type 0 where
  pub num_buckets : bundle.params.num_buckets < 2 ^ 32
  pub bucket_size : bundle.params.bucket_size < 2 ^ 32
  pub fingerprint_bits : bundle.params.fingerprint_bits < 2 ^ 32
  pub value_bits : bundle.params.value_bits < 2 ^ 32
  pub plaintext_bits : bundle.params.plaintext_bits < 2 ^ 32
  pub block : bundle.block < 2 ^ 64
  pub segments : length bundle.backend_params ≡ arity_of bundle.params.scheme_kind
  pub server_params : All IsServerParams bundle.backend_params
  pub lens : map length bundle.hints ≡ map hint_len bundle.backend_params
  pub hints : All IsVector bundle.hints

read_hints-vector_bytes :
    (sps : List SimpleServerParams) (hints : List (List ℕ)) (segment : ℕ)
    → map length hints ≡ map hint_len sps
    → All IsVector hints
    → read_hints sps segment (vector_bytes hints) ≡ ok (hints, [])
unfolding read_hints vector_bytes
read_hints-vector_bytes [] [] segment n h = refl
read_hints-vector_bytes [] (hint ∷ hints) segment n h = cc
read_hints-vector_bytes (sp ∷ sps) [] segment n h = cc
read_hints-vector_bytes (sp ∷ sps) (hint ∷ hints) segment n h =
    let len : length hint ≡ sp.params.lwe_dim * sp.reshape_row_width = cc in
    let lens : map length hints ≡ map hint_len sps = cc in
    let fits : ltb (length hint) (2 ^ 64) ≡ true = ground (arith, h.0.len) in
    rw
      (
        ← len,
        fits,
        read_vector-encode_u32s segment (length hint) hint (vector_bytes hints) h.0 (omega arith),
        read_hints-vector_bytes sps hints (segment + 1) lens h.1,
      )
      refl

unfoldable params_bytes : List SimpleServerParams → List ℕ
params_bytes [] = []
params_bytes (sp ∷ sps) = server_params_bytes sp ++ params_bytes sps

write_server_params-params_bytes :
    (out : List ℕ) (sps : List SimpleServerParams)
    → write_server_params out sps ≡ out ++ params_bytes sps
unfolding write_server_params params_bytes
write_server_params-params_bytes out [] = sym (append-nil out)
write_server_params-params_bytes out (sp ∷ sps) =
    write_server_params-params_bytes (out ++ server_params_bytes sp) sps
    ∙ append_assoc out (server_params_bytes sp) (params_bytes sps)

scheme_of-arity_of : (kind : SchemeKind) → scheme_of (arity_of kind) ≡ ok kind
scheme_of-arity_of segmented_2ary = refl
scheme_of-arity_of segmented_3ary = refl
scheme_of-arity_of segmented_4ary = refl

module _ (new_simple_params : ℕ → ℕ → ℕ → List ℕ → Outcome WireError SimpleParams)
    (new_simple_params_lem : (p : SimpleParams)
      → are_valid p.lwe_dim p.plaintext_bits p.sigma ≡ true
      → new_simple_params p.lwe_dim p.plaintext_bits p.sigma p.seed ≡ ok p) where
  read_server_params-server_params_bytes :
      (sp : SimpleServerParams) (segment : ℕ) (rest : List ℕ)
      → IsServerParams sp
      → read_server_params new_simple_params segment (server_params_bytes sp ++ rest)
        ≡ ok (sp, rest)
  unfolding read_server_params server_params_bytes
  read_server_params-server_params_bytes sp segment rest h =
      let last = to_le_bytes 4 sp.reshape_row_width ++ rest in
      let b7 = to_le_bytes 4 sp.reshape_rows ++ last in
      let b6 = to_le_bytes 4 sp.k ++ b7 in
      let b5 = to_le_bytes 4 sp.row_width ++ b6 in
      let b4 = to_le_bytes 4 sp.n_rows ++ b5 in
      let b3 = sp.params.seed ++ b4 in
      let b2 = to_le_bytes 8 sp.params.sigma ++ b3 in
      let b1 = to_le_bytes 4 sp.params.plaintext_bits ++ b2 in
      rw
        (
          append_assoc,
          append_assoc,
          append_assoc,
          append_assoc,
          append_assoc,
          append_assoc,
          append_assoc,
          append_assoc,
          read_u32-to_le_bytes sp.params.lwe_dim b1 h.lwe_dim,
          read_u32-to_le_bytes sp.params.plaintext_bits b2 h.plaintext_bits,
          read_u64-to_le_bytes sp.params.sigma b3 h.sigma,
          read_chunk-append sp.params.seed b4 16 h.seed,
          read_u32-to_le_bytes sp.n_rows b5 h.n_rows,
          read_u32-to_le_bytes sp.row_width b6 h.row_width,
          read_u32-to_le_bytes sp.k b7 h.k,
          read_u32-to_le_bytes sp.reshape_rows last h.reshape_rows,
          read_u32-to_le_bytes sp.reshape_row_width rest h.reshape_row_width,
          h.valid,
          new_simple_params_lem sp.params h.valid,
        )
        refl

  read_backend_params-params_bytes :
      (sps : List SimpleServerParams) (segment : ℕ) (rest : List ℕ)
      → All IsServerParams sps
      → read_backend_params new_simple_params (length sps) segment (params_bytes sps ++ rest)
        ≡ ok (sps, rest)
  unfolding read_backend_params params_bytes
  read_backend_params-params_bytes [] segment rest h = refl
  read_backend_params-params_bytes (sp ∷ sps) segment rest h = rw (
    append_assoc (server_params_bytes sp) (params_bytes sps) rest,
    read_server_params-server_params_bytes sp segment (params_bytes sps ++ rest) h.0,
    read_backend_params-params_bytes sps (segment + 1) rest h.1,
  )

  -- A set-up bundle of the format's widths, with valid parameters and a hint of the right length for each
  -- segment, decodes to itself, if the scheme takes every valid parameters as they are.
  pub decode_setup-encode_setup :
      (bundle : SetupBundle)
      → IsBundle bundle
      → decode_setup new_simple_params (encode_setup bundle) ≡ ok bundle
  unfolding decode_setup encode_setup setup_head read_u8 end_of_message
  decode_setup-encode_setup bundle h =
      let p = bundle.params in
      let hints = vector_bytes bundle.hints in
      let body = params_bytes bundle.backend_params ++ hints in
      let b6 = to_le_bytes 8 bundle.block ++ body in
      let b5 = to_le_bytes 4 p.plaintext_bits ++ b6 in
      let b4 = to_le_bytes 4 p.value_bits ++ b5 in
      let b3 = to_le_bytes 4 p.fingerprint_bits ++ b4 in
      let b2 = to_le_bytes 4 p.bucket_size ++ b3 in
      let b1 = to_le_bytes 4 p.num_buckets ++ b2 in
      rw
        (
          write_server_params-params_bytes (setup_head bundle) bundle.backend_params,
          write_vectors-vector_bytes (setup_head bundle ++ params_bytes bundle.backend_params)
              bundle.hints,
          append_assoc (setup_head bundle) (params_bytes bundle.backend_params) hints,
          append_assoc,
          append_assoc,
          append_assoc,
          append_assoc,
          append_assoc,
          append_assoc,
          expect_magic-append setup_magic (arity_of p.scheme_kind ∷ b1) refl,
          scheme_of-arity_of p.scheme_kind,
          read_u32-to_le_bytes p.num_buckets b2 h.num_buckets,
          read_u32-to_le_bytes p.bucket_size b3 h.bucket_size,
          read_u32-to_le_bytes p.fingerprint_bits b4 h.fingerprint_bits,
          read_u32-to_le_bytes p.value_bits b5 h.value_bits,
          read_u32-to_le_bytes p.plaintext_bits b6 h.plaintext_bits,
          read_u64-to_le_bytes bundle.block body h.block,
          ← h.segments,
          read_backend_params-params_bytes bundle.backend_params 0 hints h.server_params,
          read_hints-vector_bytes bundle.backend_params bundle.hints 0 h.lens h.hints,
        )
        refl
