-- ===== src/Http/Wire/RoundTrip.antt =====
-- What the wire format encodes decodes to itself.
use private_eth_getbalance_w.Prelude.{
  ℕ, ◌^◌, ◌<◌, ◌≤◌, ◌≡◌, refl, ◌∙◌, arith, List, [], ◌∷◌, ◌++◌, length, length-append, length-map,
  All, map, ok, ==_iff, ◌==◌, true, false, ltb, leb, take, drop,
}
use private_eth_getbalance_w.Proto.Codec.{to_le_bytes, bytes_eqb}
use private_eth_getbalance_w.Proto.Codec.RoundTrip.{take_append, drop_append}
use private_eth_getbalance_w.Http.Wire.{
  CuckooParams, arity_of, query_magic, response_magic, expect_magic, read_u8, encode_query_bundle,
  decode_query_bundle, encode_response_bundle, decode_response_bundle, end_of_message,
}
use private_eth_getbalance_w.Http.Wire.Field.{
  IsVector, vector_bytes, write_vectors-vector_bytes, read_vectors-vector_bytes,
  read_u64-to_le_bytes,
}
use mathlib.Core.List.{append_assoc}

bytes_eqb_refl : (xs : List ℕ) → bytes_eqb xs xs ≡ true
bytes_eqb_refl [] = refl
bytes_eqb_refl (x ∷ xs) =
    let same : (x == x) ≡ true = (==_iff _ _).1 refl in rw (same, bytes_eqb_refl xs) refl

pub expect_magic-append :
    (magic rest : List ℕ) → length magic ≡ 4 → expect_magic (magic ++ rest) magic ≡ ok rest
unfolding expect_magic
expect_magic-append magic rest h =
    let enough : ltb (length (magic ++ rest)) 4 ≡ false =
      ground (arith, length-append magic rest) in
    let first : take 4 (magic ++ rest) ≡ magic = rw (← h) (take_append magic rest) in
    let later : drop 4 (magic ++ rest) ≡ rest = rw (← h) (drop_append magic rest) in
    rw (enough, first, later, bytes_eqb_refl magic) refl

-- A bundle of at most 255 queries encodes without a panic, and decodes to itself for a scheme of as many
-- segments, where every query has the length that is expected of it and entries of 32 bits.
pub decode-encode_query_bundle :
    (queries : List (List ℕ)) (params : CuckooParams)
    → length queries ≡ arity_of params.scheme_kind
    → length queries ≤ 255
    → All IsVector queries
    → (bytes : List ℕ) × (encode_query_bundle queries ≡ ok bytes)
      × (decode_query_bundle bytes params (map length queries) ≡ ok queries)
unfolding encode_query_bundle decode_query_bundle read_u8 end_of_message
decode-encode_query_bundle queries params n le h =
    let fits : leb (length queries) 255 ≡ true = ground arith in
    let arity : (length queries == arity_of params.scheme_kind) ≡ true = (==_iff _ _).1 n in
    let lens : (length (map length queries) == arity_of params.scheme_kind) ≡ true =
      (==_iff _ _).1 (length-map queries length ∙ n) in
    (
      query_magic ++ (length queries ∷ vector_bytes queries),
      rw (fits, write_vectors-vector_bytes (query_magic ++ (length queries ∷ [])) queries) refl,
      rw
          (
            expect_magic-append query_magic (length queries ∷ vector_bytes queries) refl,
            arity,
            lens,
            read_vectors-vector_bytes queries 0 h,
          )
          refl,
    )

-- A bundle of at most 255 responses encodes without a panic, and decodes to itself and the head it was
-- answered at, where the number of responses and the length of each is the expected one.
pub decode-encode_response_bundle :
    (responses : List (List ℕ)) (head : ℕ)
    → length responses ≤ 255
    → head < 2 ^ 64
    → All IsVector responses
    → (bytes : List ℕ) × (encode_response_bundle responses head ≡ ok bytes)
      × (decode_response_bundle bytes (map length responses) (length responses)
          ≡ ok (responses, head))
unfolding encode_response_bundle decode_response_bundle read_u8 end_of_message
decode-encode_response_bundle responses head le word h =
    let n = length responses in
    let tail = to_le_bytes 8 head ++ vector_bytes responses in
    let fits : leb (length responses) 255 ≡ true = ground arith in
    let arity : (length responses == length responses) ≡ true = (==_iff _ _).1 refl in
    let lens : (length (map length responses) == length responses) ≡ true =
      (==_iff _ _).1 (length-map responses length) in
    (
      response_magic ++ (length responses ∷ tail),
      rw
          (
            fits,
            write_vectors-vector_bytes
                ((response_magic ++ (length responses ∷ [])) ++ to_le_bytes 8 head) responses,
            append_assoc (response_magic ++ (length responses ∷ [])) (to_le_bytes 8 head)
                (vector_bytes responses),
          )
          refl,
      rw
          (
            expect_magic-append response_magic (length responses ∷ tail) refl,
            arity,
            lens,
            read_u64-to_le_bytes head (vector_bytes responses) word,
            read_vectors-vector_bytes responses 0 h,
          )
          refl,
    )
