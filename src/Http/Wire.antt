-- ===== src/Http/Wire.antt =====
-- crates/risepir-http/src/wire.rs: the wire format of the set-up, the queries and the responses. A
-- cursor is the list of the bytes from `pos` on, an f64 is its 64 bits, a query, a response or a hint is its
-- vector of u32s, and usize has 64 bits. The records of the PIR scheme and of the store have the fields
-- that the format carries.
pub mod Setup
pub mod Field
pub mod Sound
pub mod RoundTrip
mod Tests
use private_eth_getbalance_w.Prelude.{
  ℕ, zero, suc, ◌+◌, ◌*◌, ◌-◌, ◌^◌, List, [], ◌∷◌, ◌++◌, Outcome, ok, err, panic, ◌>>=◌, ◌>>◌,
  guard, length, take, drop, leb, ltb, ◌==◌, ◌&&◌, ◌||◌, not, if◌then◌else◌,
}
use private_eth_getbalance_w.Proto.Varint.{CodecError, uvarint_len}
use private_eth_getbalance_w.Proto.Codec.{
  to_le_bytes, from_le_bytes, bytes_eqb, encode_u32s, read_u32s,
}

-- `b"RPS1"`, `b"RPQ1"` and `b"RPR1"`
abbrev pub setup_magic : List ℕ
setup_magic = 0x52 ∷ 0x50 ∷ 0x53 ∷ 0x31 ∷ []

abbrev pub query_magic : List ℕ
query_magic = 0x52 ∷ 0x50 ∷ 0x51 ∷ 0x31 ∷ []

abbrev pub response_magic : List ℕ
response_magic = 0x52 ∷ 0x50 ∷ 0x52 ∷ 0x31 ∷ []

pub data WireError : Type 0 where
  bad_magic : WireError
  unexpected_eof : WireError
  bad_scheme : ℕ → WireError
  arity_mismatch : ℕ → ℕ → WireError
  segment_length_mismatch : ℕ → ℕ → ℕ → WireError
  invalid_simple_params : ℕ → WireError
  trailing_bytes : WireError
  codec : CodecError → WireError

pub data SchemeKind : Type 0 where
  segmented_2ary : SchemeKind
  segmented_3ary : SchemeKind
  segmented_4ary : SchemeKind

pub record CuckooParams : Type 0 where
  pub scheme_kind : SchemeKind
  pub num_buckets : ℕ
  pub bucket_size : ℕ
  pub fingerprint_bits : ℕ
  pub value_bits : ℕ
  pub plaintext_bits : ℕ

-- `arity()`, the number of segments of a scheme.
abbrev pub arity_of : SchemeKind → ℕ
arity_of segmented_2ary = 2
arity_of segmented_3ary = 3
arity_of segmented_4ary = 4

pub record SimpleParams : Type 0 where
  pub lwe_dim : ℕ
  pub plaintext_bits : ℕ
  pub sigma : ℕ
  pub seed : List ℕ

pub record SimpleServerParams : Type 0 where
  pub params : SimpleParams
  pub n_rows : ℕ
  pub row_width : ℕ
  pub k : ℕ
  pub reshape_rows : ℕ
  pub reshape_row_width : ℕ

pub record SetupBundle : Type 0 where
  pub params : CuckooParams
  pub backend_params : List SimpleServerParams
  pub hints : List (List ℕ)
  pub block : ℕ

-- A read returns what it read and the bytes after it.
abbrev pub WireRead : Type 0 → Type 0
WireRead A = Outcome WireError (A × List ℕ)

-- `From<CodecError>`, at every `?` on a result of the codec.
abbrev pub from_codec : {A : Type 0} → Outcome CodecError A → Outcome WireError A
from_codec (ok a) = ok a
from_codec (err e) = err (codec e)
from_codec panic = panic

unfoldable pub expect_magic : List ℕ → List ℕ → Outcome WireError (List ℕ)
expect_magic bytes magic =
    if ltb (length bytes) 4 || not (bytes_eqb (take 4 bytes) magic)
    then err bad_magic
    else ok (drop 4 bytes)

unfoldable pub read_u8 : List ℕ → WireRead ℕ
read_u8 [] = err unexpected_eof
read_u8 (b ∷ bytes) = ok (b, bytes)

-- `bytes.get(pos..pos + n)`, and the cursor moved past it.
unfoldable pub read_chunk : ℕ → List ℕ → WireRead (List ℕ)
read_chunk n bytes =
    if ltb (length bytes) n then err unexpected_eof else ok (take n bytes, drop n bytes)

-- `read_u32`, and `read_u64` and `read_f64`, which read the same number.
unfoldable pub read_u32 : List ℕ → WireRead ℕ
read_u32 bytes = do (chunk, bytes) ← read_chunk 4 bytes; ok (from_le_bytes chunk, bytes)

unfoldable pub read_u64 : List ℕ → WireRead ℕ
read_u64 bytes = do (chunk, bytes) ← read_chunk 8 bytes; ok (from_le_bytes chunk, bytes)

abbrev pub read_f64 : List ℕ → WireRead ℕ
read_f64 = read_u64

abbrev pub read_seed : List ℕ → WireRead (List ℕ)
read_seed = read_chunk 16

abbrev pub mul_u32_saturating_usize : ℕ → ℕ → ℕ
mul_u32_saturating_usize a b = if ltb (a * b) (2 ^ 64) then a * b else 2 ^ 64 - 1

-- `pos != bytes.len()` at the end.
unfoldable pub end_of_message : List ℕ → Outcome WireError (Unit {0})
end_of_message [] = ok tt
end_of_message (b ∷ bytes) = err trailing_bytes

-- Each vector, in front of the next.
unfoldable pub write_vectors : List ℕ → List (List ℕ) → List ℕ
write_vectors out [] = out
write_vectors out (values ∷ vectors) = write_vectors (out ++ encode_u32s values) vectors

-- A vector that has to have `expected` entries.
unfoldable pub read_vector : ℕ → ℕ → ℕ → List ℕ → WireRead (List ℕ)
read_vector segment max_len expected bytes = do
  (values, bytes) ← from_codec (read_u32s bytes max_len)
  guard (length values == expected) (segment_length_mismatch segment expected (length values))
  ok (values, bytes)

-- The vectors of the segments from `segment` on.
unfoldable pub read_vectors : List ℕ → ℕ → List ℕ → WireRead (List (List ℕ))
read_vectors [] segment bytes = ok ([], bytes)
read_vectors (expected_len ∷ lens) segment bytes = do
  (values, bytes) ← read_vector segment expected_len expected_len bytes
  (vectors, bytes) ← read_vectors lens (segment + 1) bytes
  ok (values ∷ vectors, bytes)

unfoldable pub encode_query_bundle : List (List ℕ) → Outcome ⊥ (List ℕ)
encode_query_bundle queries =
    if leb (length queries) 255
    then ok (write_vectors (query_magic ++ (length queries ∷ [])) queries)
    else panic

unfoldable pub decode_query_bundle :
    List ℕ → CuckooParams → List ℕ → Outcome WireError (List (List ℕ))
decode_query_bundle bytes params expected_len_per_seg = do
  bytes ← expect_magic bytes query_magic
  (arity, bytes) ← read_u8 bytes
  let expected_arity = arity_of params.scheme_kind
  guard (arity == expected_arity) (arity_mismatch expected_arity arity)
  guard (length expected_len_per_seg == expected_arity)
      (arity_mismatch expected_arity (length expected_len_per_seg))
  (queries, bytes) ← read_vectors expected_len_per_seg 0 bytes
  end_of_message bytes
  ok queries

unfoldable pub encode_response_bundle : List (List ℕ) → ℕ → Outcome ⊥ (List ℕ)
encode_response_bundle responses head =
    if leb (length responses) 255
    then ok (
        write_vectors ((response_magic ++ (length responses ∷ [])) ++ to_le_bytes 8 head) responses)
    else panic

unfoldable pub decode_response_bundle : List ℕ → List ℕ → ℕ → Outcome WireError (List (List ℕ) × ℕ)
decode_response_bundle bytes expected_len_per_seg arity = do
  bytes ← expect_magic bytes response_magic
  (found_arity, bytes) ← read_u8 bytes
  guard (found_arity == arity) (arity_mismatch arity found_arity)
  guard (length expected_len_per_seg == arity) (arity_mismatch arity (length expected_len_per_seg))
  (head, bytes) ← read_u64 bytes
  (responses, bytes) ← read_vectors expected_len_per_seg 0 bytes
  end_of_message bytes
  ok (responses, head)
