-- ===== src/Http/Wire/Setup.antt =====
-- crates/risepir-http/src/wire.rs: the set-up bundle. `new_simple_params` is `SimpleParams::new` of the
-- third-party scheme, which may panic.
pub mod RoundTrip
pub mod Sound
pub mod Length
use private_eth_getbalance_w.Prelude.{
  ℕ, zero, suc, Bool, ◌+◌, ◌*◌, ◌^◌, List, [], ◌∷◌, ◌++◌, Outcome, ok, err, panic, ◌>>=◌, ◌>>◌,
  guard, length, ltb, leb, ◌==◌, ◌&&◌, if◌then◌else◌,
}
use private_eth_getbalance_w.Proto.Varint.{uvarint_len}
use private_eth_getbalance_w.Proto.Codec.{to_le_bytes}
use private_eth_getbalance_w.Http.Wire.{
  setup_magic, WireError, bad_scheme, invalid_simple_params, SchemeKind, segmented_2ary,
  segmented_3ary, segmented_4ary, arity_of, SimpleParams, SimpleServerParams, SetupBundle, WireRead,
  expect_magic, read_u8, read_u32, read_u64, read_f64, read_seed, mul_u32_saturating_usize,
  end_of_message, write_vectors, read_vector,
}

-- The fields of one segment.
unfoldable pub server_params_bytes : SimpleServerParams → List ℕ
server_params_bytes sp =
    to_le_bytes 4 sp.params.lwe_dim
    ++ (to_le_bytes 4 sp.params.plaintext_bits
        ++ (to_le_bytes 8 sp.params.sigma
            ++ (sp.params.seed
                ++ (to_le_bytes 4 sp.n_rows
                    ++ (to_le_bytes 4 sp.row_width
                        ++ (to_le_bytes 4 sp.k
                            ++ (to_le_bytes 4 sp.reshape_rows
                                ++ to_le_bytes 4 sp.reshape_row_width)))))))

unfoldable pub write_server_params : List ℕ → List SimpleServerParams → List ℕ
write_server_params out [] = out
write_server_params out (sp ∷ sps) = write_server_params (out ++ server_params_bytes sp) sps

-- The fixed fields in front of the segments.
unfoldable pub setup_head : SetupBundle → List ℕ
setup_head bundle =
    setup_magic
    ++ (arity_of bundle.params.scheme_kind
        ∷ (to_le_bytes 4 bundle.params.num_buckets
            ++ (to_le_bytes 4 bundle.params.bucket_size
                ++ (to_le_bytes 4 bundle.params.fingerprint_bits
                    ++ (to_le_bytes 4 bundle.params.value_bits
                        ++ (to_le_bytes 4 bundle.params.plaintext_bits
                            ++ to_le_bytes 8 bundle.block))))))

-- The assertion on the arity always holds, and the debug assertions do nothing in a release build.
unfoldable pub encode_setup : SetupBundle → List ℕ
encode_setup bundle =
    write_vectors (write_server_params (setup_head bundle) bundle.backend_params) bundle.hints

unfoldable pub add_hint_lens : ℕ → List (List ℕ) → ℕ
add_hint_lens total [] = total
add_hint_lens total (hint ∷ hints) =
    add_hint_lens (total + (uvarint_len (length hint) + length hint * 4)) hints

-- The sum is of u64s, which memory does not exceed.
unfoldable pub setup_encoded_len : SetupBundle → ℕ
setup_encoded_len bundle = add_hint_lens (33 + 52 * length bundle.backend_params) bundle.hints

abbrev pub scheme_of : ℕ → Outcome WireError SchemeKind
scheme_of scheme_byte =
    if scheme_byte == 2
    then ok segmented_2ary
    else if scheme_byte == 3
    then ok segmented_3ary
    else if scheme_byte == 4
    then ok segmented_4ary
    else err (bad_scheme scheme_byte)

-- `sigma > 0.0 && sigma.is_finite()`: the bits from the least number above 0 to below infinity.
abbrev pub is_positive_finite : ℕ → Bool
is_positive_finite sigma = ltb 0 sigma && ltb sigma (0x7ff * 2 ^ 52)

abbrev pub are_valid : ℕ → ℕ → ℕ → Bool
are_valid lwe_dim plaintext_bits sigma =
    ltb 0 lwe_dim && ((leb 1 plaintext_bits && leb plaintext_bits 31) && is_positive_finite sigma)

module _ (new_simple_params : ℕ → ℕ → ℕ → List ℕ → Outcome WireError SimpleParams) where
  unfoldable pub read_server_params : ℕ → List ℕ → WireRead SimpleServerParams
  read_server_params segment bytes = do
    (lwe_dim, bytes) ← read_u32 bytes
    (seg_plaintext_bits, bytes) ← read_u32 bytes
    (sigma, bytes) ← read_f64 bytes
    (seed, bytes) ← read_seed bytes
    (n_rows, bytes) ← read_u32 bytes
    (row_width, bytes) ← read_u32 bytes
    (k, bytes) ← read_u32 bytes
    (reshape_rows, bytes) ← read_u32 bytes
    (reshape_row_width, bytes) ← read_u32 bytes
    guard (are_valid lwe_dim seg_plaintext_bits sigma) (invalid_simple_params segment)
    params ← new_simple_params lwe_dim seg_plaintext_bits sigma seed
    ok (
      record {
        params = params;
        n_rows = n_rows;
        row_width = row_width;
        k = k;
        reshape_rows = reshape_rows;
        reshape_row_width = reshape_row_width;
      },
      bytes,
    )

  -- The segments from `segment` on, `left` of them.
  unfoldable pub read_backend_params : ℕ → ℕ → List ℕ → WireRead (List SimpleServerParams)
  read_backend_params zero segment bytes = ok ([], bytes)
  read_backend_params (suc left) segment bytes = do
    (sp, bytes) ← read_server_params segment bytes
    (sps, bytes) ← read_backend_params left (segment + 1) bytes
    ok (sp ∷ sps, bytes)

-- The hints of the segments from `segment` on.
unfoldable pub read_hints : List SimpleServerParams → ℕ → List ℕ → WireRead (List (List ℕ))
read_hints [] segment bytes = ok ([], bytes)
read_hints (sp ∷ sps) segment bytes = do
  (values, bytes) ←
      read_vector segment (mul_u32_saturating_usize sp.params.lwe_dim sp.reshape_row_width)
        (sp.params.lwe_dim * sp.reshape_row_width) bytes
  (hints, bytes) ← read_hints sps (segment + 1) bytes
  ok (values ∷ hints, bytes)

module _ (new_simple_params : ℕ → ℕ → ℕ → List ℕ → Outcome WireError SimpleParams) where
  unfoldable pub decode_setup : List ℕ → Outcome WireError SetupBundle
  decode_setup bytes = do
    bytes ← expect_magic bytes setup_magic
    (scheme_byte, bytes) ← read_u8 bytes
    scheme_kind ← scheme_of scheme_byte
    (num_buckets, bytes) ← read_u32 bytes
    (bucket_size, bytes) ← read_u32 bytes
    (fingerprint_bits, bytes) ← read_u32 bytes
    (value_bits, bytes) ← read_u32 bytes
    (plaintext_bits, bytes) ← read_u32 bytes
    (block, bytes) ← read_u64 bytes
    (backend_params, bytes) ← read_backend_params new_simple_params (arity_of scheme_kind) 0 bytes
    (hints, bytes) ← read_hints backend_params 0 bytes
    end_of_message bytes
    ok (record {
      params = record {
        scheme_kind = scheme_kind;
        num_buckets = num_buckets;
        bucket_size = bucket_size;
        fingerprint_bits = fingerprint_bits;
        value_bits = value_bits;
        plaintext_bits = plaintext_bits;
      };
      backend_params = backend_params;
      hints = hints;
      block = block;
    })
