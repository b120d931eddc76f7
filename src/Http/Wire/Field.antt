-- ===== src/Http/Wire/Field.antt =====
-- Each field that was written reads back, in front of any further bytes.
use private_eth_getbalance_w.Prelude.{
  ℕ, ◌+◌, ◌^◌, ◌<◌, ◌≤◌, ◌≡◌, refl, sym, ◌∙◌, arith, List, [], ◌∷◌, ◌++◌, length, length-append,
  All, map, ok, ==_iff, ◌==◌, true, false, ltb,
}
use private_eth_getbalance_w.Proto.Codec.{to_le_bytes, encode_u32s}
use private_eth_getbalance_w.Proto.Codec.RoundTrip.{
  from_le_bytes-to_le_bytes, length-to_le_bytes, take_append, drop_append,
}
use private_eth_getbalance_w.Proto.Codec.Vectors.{IsU32, read_u32s-encode_u32s}
use private_eth_getbalance_w.Http.Wire.{
  read_chunk, read_u32, read_u64, read_vector, read_vectors, write_vectors,
}
use mathlib.Core.List.{append-nil, append_assoc}

pub read_chunk-append :
    (xs ys : List ℕ) (n : ℕ) → length xs ≡ n → read_chunk n (xs ++ ys) ≡ ok (xs, ys)
unfolding read_chunk
read_chunk-append xs ys n h =
    let enough : ltb (length (xs ++ ys)) (length xs) ≡ false =
      ground (arith, length-append xs ys) in
    rw (← h, enough, take_append xs ys, drop_append xs ys)

pub read_u32-to_le_bytes :
    (v : ℕ) (rest : List ℕ) → v < 2 ^ 32 → read_u32 (to_le_bytes 4 v ++ rest) ≡ ok (v, rest)
unfolding read_u32
read_u32-to_le_bytes v rest h = rw (
  read_chunk-append (to_le_bytes 4 v) rest 4 (length-to_le_bytes 4 v),
  from_le_bytes-to_le_bytes 4 v h,
)

pub read_u64-to_le_bytes :
    (v : ℕ) (rest : List ℕ) → v < 2 ^ 64 → read_u64 (to_le_bytes 8 v ++ rest) ≡ ok (v, rest)
unfolding read_u64
read_u64-to_le_bytes v rest h = rw (
  read_chunk-append (to_le_bytes 8 v) rest 8 (length-to_le_bytes 8 v),
  from_le_bytes-to_le_bytes 8 v h,
)

-- A vector that the format can carry.
pub record IsVector (values : List ℕ) : Type 0 where
  pub entries : All IsU32 values
  pub len : length values < 2 ^ 64

pub read_vector-encode_u32s :
    (segment max_len : ℕ) (values rest : List ℕ)
    → IsVector values
    → length values ≤ max_len
    → read_vector segment max_len (length values) (encode_u32s values ++ rest) ≡ ok (values, rest)
unfolding read_vector
read_vector-encode_u32s segment max_len values rest h le =
    let same : (length values == length values) ≡ true = (==_iff _ _).1 refl in
    rw (read_u32s-encode_u32s values rest max_len h.entries le h.len, same) refl

-- The bytes of the vectors, without the buffer in front of them.
unfoldable pub vector_bytes : List (List ℕ) → List ℕ
vector_bytes [] = []
vector_bytes (values ∷ vectors) = encode_u32s values ++ vector_bytes vectors

pub write_vectors-vector_bytes :
    (out : List ℕ) (vectors : List (List ℕ))
    → write_vectors out vectors ≡ out ++ vector_bytes vectors
unfolding write_vectors vector_bytes
write_vectors-vector_bytes out [] = sym (append-nil out)
write_vectors-vector_bytes out (values ∷ vectors) =
    write_vectors-vector_bytes (out ++ encode_u32s values) vectors
    ∙ append_assoc out (encode_u32s values) (vector_bytes vectors)

pub read_vectors-vector_bytes :
    (vectors : List (List ℕ)) (segment : ℕ)
    → All IsVector vectors
    → read_vectors (map length vectors) segment (vector_bytes vectors) ≡ ok (vectors, [])
unfolding read_vectors vector_bytes
read_vectors-vector_bytes [] segment a = refl
read_vectors-vector_bytes (values ∷ vectors) segment a = rw (
  read_vector-encode_u32s segment (length values) values (vector_bytes vectors) a.0 (omega arith),
  read_vectors-vector_bytes vectors (segment + 1) a.1,
)
