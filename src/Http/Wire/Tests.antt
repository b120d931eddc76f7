-- ===== src/Http/Wire/Tests.antt =====
-- Runs of the wire format, and its theorems at concrete inputs.
use private_eth_getbalance_w.Prelude.{
  ℕ, ◌≡◌, refl, subst, arith, List, [], ◌∷◌, length, map, All, Outcome, ok, err,
}
use private_eth_getbalance_w.Http.Wire.{
  WireError, bad_magic, arity_mismatch, CuckooParams, segmented_2ary, SimpleParams,
  SimpleServerParams, SetupBundle, arity_of, encode_query_bundle, decode_query_bundle,
  encode_response_bundle, decode_response_bundle, expect_magic, read_u8, read_vectors, read_vector,
  end_of_message,
}
use private_eth_getbalance_w.Proto.Varint.{read_uvarint}
use private_eth_getbalance_w.Proto.Codec.{read_u32s, read_u32_loop, read_exact, from_le_bytes}
use private_eth_getbalance_w.Http.Wire.Field.{IsVector}
use private_eth_getbalance_w.Http.Wire.RoundTrip.{
  decode-encode_query_bundle, decode-encode_response_bundle,
}
use private_eth_getbalance_w.Http.Wire.Sound.{
  Ensures, decode_query_bundle-Ensures, decode_response_bundle-Ensures,
}
use private_eth_getbalance_w.Http.Wire.Setup.{encode_setup, decode_setup, setup_encoded_len}
use private_eth_getbalance_w.Http.Wire.Setup.RoundTrip.{
  hint_len, IsServerParams, IsBundle, decode_setup-encode_setup,
}
use private_eth_getbalance_w.Http.Wire.Setup.Sound.{IsIndexable, decode_setup-Ensures}
use private_eth_getbalance_w.Http.Wire.Setup.Length.{length-encode_setup}

abbrev two_ary : CuckooParams
two_ary = record {
  scheme_kind = segmented_2ary;
  num_buckets = 8;
  bucket_size = 4;
  fingerprint_bits = 12;
  value_bits = 144;
  plaintext_bits = 9;
}

abbrev queries : List (List ℕ)
queries = (1 ∷ 0xffffffff ∷ []) ∷ (7 ∷ []) ∷ []

queries_hold : All IsVector queries
queries_hold = (
  record { entries = (omega arith, (omega arith, tt)); len = omega arith },
  (record { entries = (omega arith, tt); len = omega arith }, tt),
)

query_round_trip :
    (bytes : List ℕ) × (encode_query_bundle queries ≡ ok bytes)
    × (decode_query_bundle bytes two_ary (2 ∷ 1 ∷ []) ≡ ok queries)
query_round_trip = decode-encode_query_bundle queries two_ary refl (omega arith) queries_hold

decode-encode_response_bundle_example :
    (bytes : List ℕ) × (encode_response_bundle queries 9 ≡ ok bytes)
    × (decode_response_bundle bytes (2 ∷ 1 ∷ []) 2 ≡ ok (queries, 9))
decode-encode_response_bundle_example =
    decode-encode_response_bundle queries 9 (omega arith) (omega arith) queries_hold

abbrev query_message : List ℕ
query_message =
    0x52 ∷ 0x50 ∷ 0x51 ∷ 0x31 ∷ 2 ∷ 2 ∷ 1 ∷ 0 ∷ 0 ∷ 0 ∷ 255 ∷ 255 ∷ 255 ∷ 255 ∷ 1 ∷ 7 ∷ 0 ∷ 0 ∷ 0
    ∷ []

decode_query_message : decode_query_bundle query_message two_ary (2 ∷ 1 ∷ []) ≡ ok queries
unfolding decode_query_bundle expect_magic read_u8 read_vectors read_vector read_u32s read_uvarint
    read_u32_loop read_exact from_le_bytes end_of_message
decode_query_message = refl

decode_query_bundle-Ensures_example :
    (map length queries ≡ 2 ∷ 1 ∷ []) × (length {A = ℕ} (2 ∷ 1 ∷ []) ≡ arity_of two_ary.scheme_kind)
decode_query_bundle-Ensures_example =
    subst
      (Ensures (λ qs.
        (map length qs ≡ 2 ∷ 1 ∷ [])
        × (length {A = ℕ} (2 ∷ 1 ∷ []) ≡ arity_of two_ary.scheme_kind)))
      decode_query_message (decode_query_bundle-Ensures query_message two_ary (2 ∷ 1 ∷ []))

response_lens :
    Ensures
      (λ bundle. map length bundle.0 ≡ 2 ∷ [])
      (decode_response_bundle (0x52 ∷ 0x50 ∷ 0x52 ∷ 0x31 ∷ 1 ∷ 0 ∷ []) (2 ∷ []) 1)
response_lens = decode_response_bundle-Ensures (0x52 ∷ 0x50 ∷ 0x52 ∷ 0x31 ∷ 1 ∷ 0 ∷ []) (2 ∷ []) 1

wrong_magic :
    decode_query_bundle (0x52 ∷ 0x50 ∷ 0x52 ∷ 0x31 ∷ 2 ∷ []) two_ary (2 ∷ 1 ∷ []) ≡ err bad_magic
unfolding decode_query_bundle expect_magic
wrong_magic = refl

wrong_arity :
    decode_query_bundle (0x52 ∷ 0x50 ∷ 0x51 ∷ 0x31 ∷ 3 ∷ []) two_ary (2 ∷ 1 ∷ [])
    ≡ err (arity_mismatch 2 3)
unfolding decode_query_bundle expect_magic read_u8
wrong_arity = refl

abbrev new_simple_params : ℕ → ℕ → ℕ → List ℕ → Outcome WireError SimpleParams
new_simple_params lwe_dim plaintext_bits sigma seed =
    ok (record { lwe_dim = lwe_dim; plaintext_bits = plaintext_bits; sigma = sigma; seed = seed })

-- A sigma of 6.4.
abbrev server_params : SimpleServerParams
server_params = record {
  params = record {
    lwe_dim = 2;
    plaintext_bits = 9;
    sigma = 0x401999999999999a;
    seed = 1 ∷ 2 ∷ 3 ∷ 4 ∷ 5 ∷ 6 ∷ 7 ∷ 8 ∷ 9 ∷ 10 ∷ 11 ∷ 12 ∷ 13 ∷ 14 ∷ 15 ∷ 255 ∷ [];
  };
  n_rows = 4;
  row_width = 3;
  k = 2;
  reshape_rows = 2;
  reshape_row_width = 1;
}

abbrev bundle : SetupBundle
bundle = record {
  params = two_ary;
  backend_params = server_params ∷ server_params ∷ [];
  hints = (5 ∷ 6 ∷ []) ∷ (7 ∷ 0x80000000 ∷ []) ∷ [];
  block = 17;
}

server_params-IsServerParams : IsServerParams server_params
server_params-IsServerParams = record {
  lwe_dim = omega arith;
  plaintext_bits = omega arith;
  sigma = omega arith;
  seed = refl;
  n_rows = omega arith;
  row_width = omega arith;
  k = omega arith;
  reshape_rows = omega arith;
  reshape_row_width = omega arith;
  valid = refl;
}

bundle-IsBundle : IsBundle bundle
bundle-IsBundle = record {
  num_buckets = omega arith;
  bucket_size = omega arith;
  fingerprint_bits = omega arith;
  value_bits = omega arith;
  plaintext_bits = omega arith;
  block = omega arith;
  segments = refl;
  server_params = (server_params-IsServerParams, (server_params-IsServerParams, tt));
  lens = refl;
  hints = (
    record { entries = (omega arith, (omega arith, tt)); len = omega arith },
    (record { entries = (omega arith, (omega arith, tt)); len = omega arith }, tt),
  );
}

decode_setup-encode_setup_example : decode_setup new_simple_params (encode_setup bundle) ≡ ok bundle
decode_setup-encode_setup_example =
    decode_setup-encode_setup new_simple_params (λ p h. refl) bundle bundle-IsBundle

decode_bundle : decode_setup new_simple_params (encode_setup bundle) ≡ ok bundle
decode_bundle = decode_setup-encode_setup new_simple_params (λ p h. refl) bundle bundle-IsBundle

decode_setup-Ensures_example :
    (length bundle.backend_params ≡ 2)
    × (map length bundle.hints ≡ map hint_len bundle.backend_params)
decode_setup-Ensures_example = subst (Ensures IsIndexable) decode_bundle (
    decode_setup-Ensures new_simple_params
      (λ lwe_dim plaintext_bits sigma seed h. (
        record { lwe_dim = lwe_dim; plaintext_bits = plaintext_bits; sigma = sigma; seed = seed },
        refl,
      ))
      (encode_setup bundle))

setup_len : length (encode_setup bundle) ≡ setup_encoded_len bundle
setup_len = length-encode_setup bundle (refl, (refl, tt))
