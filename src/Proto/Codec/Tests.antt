-- ===== src/Proto/Codec/Tests.antt =====
-- Runs of the block-delta and vector codecs, and their theorems at concrete inputs.
use private_eth_getbalance_w.Prelude.{
  ℕ, ◌<◌, ◌^◌, ◌≡◌, refl, arith, List, [], ◌∷◌, All, length, map, ok,
}
use private_eth_getbalance_w.Prelude.Int.{pos, negsuc}
use private_eth_getbalance_w.Proto.Varint.{
  write_uvarint, read_uvarint, zigzag_encode, zigzag_decode, check_count,
}
use private_eth_getbalance_w.Proto.Delta.{BlockDelta}
use private_eth_getbalance_w.Proto.Codec.{
  encode_block_delta, decode_block_delta, decode_u32s, read_u32s, read_u32_loop, to_le_bytes,
  from_le_bytes, read_exact, end_of_input, write_segments, write_rows, write_cells, sort_by_key,
  insert_sorted, read_segments, read_rows, read_cells, next_index,
}
use private_eth_getbalance_w.Proto.Codec.RoundTrip.{
  IsEncodable, sort_segment, decode-encode_block_delta,
}
use private_eth_getbalance_w.Proto.Codec.Sound.{IsDecodedRows, decode_block_delta_sound}

-- Rows and offsets out of order, as a caller may hand them over.
abbrev unsorted : BlockDelta
unsorted = record {
  block = 424242;
  per_segment = ((5, (10, pos 7) ∷ (3, negsuc 99) ∷ []) ∷ (1, (0, pos 1) ∷ []) ∷ []) ∷ [] ∷ [];
}

abbrev sorted : BlockDelta
sorted = record {
  block = 424242;
  per_segment = ((1, (0, pos 1) ∷ []) ∷ (5, (3, negsuc 99) ∷ (10, pos 7) ∷ []) ∷ []) ∷ [] ∷ [];
}

abbrev message : List ℕ
message =
    0x52 ∷ 0x50 ∷ 0x44 ∷ 0x31 ∷ 50 ∷ 121 ∷ 6 ∷ 0 ∷ 0 ∷ 0 ∷ 0 ∷ 0 ∷ 2 ∷ 2 ∷ 1 ∷ 1 ∷ 0 ∷ 2 ∷ 4 ∷ 2 ∷ 3
    ∷ 199 ∷ 1 ∷ 7 ∷ 14 ∷ 0 ∷ []

unsorted-IsEncodable : IsEncodable 20 unsorted
unsorted-IsEncodable = record {
  bits = (omega arith, omega arith);
  block = omega arith;
  arity = omega arith;
  segments = (
    (
      omega arith,
      (
        (omega arith, omega arith, ((omega arith, omega arith), ((omega arith, omega arith), tt))),
        ((omega arith, omega arith, ((omega arith, omega arith), tt)), tt),
      ),
    ),
    ((omega arith, tt), tt),
  );
}

encode_unsorted : encode_block_delta unsorted ≡ ok message
unfolding encode_block_delta write_uvarint zigzag_encode write_segments write_rows write_cells
    sort_by_key insert_sorted to_le_bytes
encode_unsorted = refl

decode_message : decode_block_delta message 20 2 ≡ ok sorted
unfolding decode_block_delta read_uvarint zigzag_decode check_count read_segments read_rows
    read_cells next_index from_le_bytes
decode_message = refl

decode-encode_block_delta_example :
    (bytes : List ℕ) × (encode_block_delta unsorted ≡ ok bytes)
    × (decode_block_delta bytes 20 2
        ≡ ok (record { block = 424242; per_segment = map sort_segment unsorted.per_segment }))
decode-encode_block_delta_example = decode-encode_block_delta 20 unsorted unsorted-IsEncodable

decode_block_delta_sound_example :
    All (IsDecodedRows (2 ^ 20) 0) sorted.per_segment × (length sorted.per_segment ≡ 2)
decode_block_delta_sound_example = decode_block_delta_sound message 20 2 sorted decode_message

abbrev words : List ℕ
words = 1 ∷ 0xffff_ffff ∷ []

words_fit : All (λ v. v < 2 ^ 32) words
words_fit = (omega arith, (omega arith, tt))

decode_words : decode_u32s (2 ∷ 1 ∷ 0 ∷ 0 ∷ 0 ∷ 255 ∷ 255 ∷ 255 ∷ 255 ∷ []) 3 ≡ ok words
unfolding decode_u32s read_u32s read_uvarint read_u32_loop read_exact from_le_bytes end_of_input
decode_words = refl
