-- ===== src/Proto/Codec.antt =====
-- crates/risepir-proto/src/codec.rs: the wire format of a block delta, and of a vector of u32s.
-- The vectors that the encoder pushes to are lists; a decoder's cursor is the list of the bytes from
-- `pos` on, and its loops over a count are recursions on that count.
pub mod Sort
pub mod Write
pub mod RoundTrip
pub mod Sound
pub mod Total
pub mod Length
pub mod Vectors
mod Tests
use private_eth_getbalance_w.Prelude.{
  ℕ, zero, suc, ◌+◌, ◌-◌, ◌*◌, ◌/◌, ◌%◌, ◌^◌, List, [], ◌∷◌, ◌++◌, Bool, true, false, not, ◌&&◌,
  ◌||◌, Option, none, some,
}
use private_eth_getbalance_w.Prelude.{
  Outcome, ok, err, panic, ◌>>=◌, ◌>>◌, guard, length, take, drop, leb, ltb, ◌==◌, if◌then◌else◌,
}
use private_eth_getbalance_w.Prelude.Int.{ℤ, unsigned_abs}
use private_eth_getbalance_w.Proto.Varint.{
  CodecError, bad_magic, unexpected_eof, arity_mismatch, count_exceeds_input, index_overflow,
  delta_out_of_range, trailing_bytes, Read, write_uvarint, read_uvarint, uvarint_len, zigzag_encode,
  zigzag_decode, check_count,
}
use private_eth_getbalance_w.Proto.Delta.{BlockDelta, Cells, SegmentRowDeltas}

-- `b"RPD1"`
abbrev pub magic : List ℕ
magic = 0x52 ∷ 0x50 ∷ 0x44 ∷ 0x31 ∷ []

-- `slice::sort_by_key` is stable: an entry goes in front of the equal keys that follow it.
module _ {V : Type 0} where
  unfoldable pub insert_sorted : ℕ × V → List (ℕ × V) → List (ℕ × V)
  insert_sorted x [] = x ∷ []
  insert_sorted x (y ∷ l) = if leb x.0 y.0 then x ∷ (y ∷ l) else y ∷ insert_sorted x l

  unfoldable pub sort_by_key : List (ℕ × V) → List (ℕ × V)
  sort_by_key [] = []
  sort_by_key (x ∷ l) = insert_sorted x (sort_by_key l)

-- `v.to_le_bytes()` of a value of `n` bytes, and `from_le_bytes`.
unfoldable pub to_le_bytes : ℕ → ℕ → List ℕ
to_le_bytes zero v = []
to_le_bytes (suc n) v = v % 256 ∷ to_le_bytes n (v / 256)

unfoldable pub from_le_bytes : List ℕ → ℕ
from_le_bytes [] = 0
from_le_bytes (b ∷ bs) = b + 256 * from_le_bytes bs

-- The gaps do not underflow, since the entries are sorted.
unfoldable pub write_cells : List ℕ → ℕ → Cells → List ℕ
write_cells out prev_off [] = out
write_cells out prev_off ((offset, delta) ∷ cells) =
    write_cells (write_uvarint (write_uvarint out (offset - prev_off)) (zigzag_encode delta)) offset
      cells

unfoldable pub write_rows : List ℕ → ℕ → SegmentRowDeltas → List ℕ
write_rows out prev_row [] = out
write_rows out prev_row ((row, cells) ∷ rows) =
    let sorted_cells = sort_by_key cells in
    write_rows
      (write_cells (write_uvarint (write_uvarint out (row - prev_row)) (length sorted_cells)) 0
        sorted_cells)
      row rows

unfoldable pub write_segments : List ℕ → List SegmentRowDeltas → List ℕ
write_segments out [] = out
write_segments out (seg ∷ segs) =
    let rows = sort_by_key seg in
    write_segments (write_rows (write_uvarint out (length rows)) 0 rows) segs

-- `assert!(per_segment.len() <= u8::MAX)`. The debug assertions do nothing in a release build.
unfoldable pub encode_block_delta : BlockDelta → Outcome ⊥ (List ℕ)
encode_block_delta delta =
    if leb (length delta.per_segment) 255
    then ok (
        write_segments (magic ++ (to_le_bytes 8 delta.block ++ (length delta.per_segment ∷ [])))
          delta.per_segment)
    else panic

-- `prev.checked_add(gap)` on u64s, then `try_from` into a type of `limit` values.
unfoldable pub next_index : ℕ → ℕ → ℕ → Outcome CodecError ℕ
next_index limit prev gap =
    if not (ltb (prev + gap) (2 ^ 64))
    then err index_overflow
    else if not (ltb (prev + gap) limit)
    then err index_overflow
    else ok (prev + gap)

unfoldable pub read_cells : ℕ → ℕ → ℕ → List ℕ → Read Cells
read_cells bound zero prev_off bytes = ok ([], bytes)
read_cells bound (suc count) prev_off bytes = do
  (off_gap, bytes) ← read_uvarint bytes
  offset ← next_index (2 ^ 16) prev_off off_gap
  (delta_raw, bytes) ← read_uvarint bytes
  let delta = zigzag_decode delta_raw
  guard (ltb (unsigned_abs delta) bound) delta_out_of_range
  (cells, bytes) ← read_cells bound count offset bytes
  ok ((offset, delta) ∷ cells, bytes)

unfoldable pub read_rows : ℕ → ℕ → ℕ → List ℕ → Read SegmentRowDeltas
read_rows bound zero prev_row bytes = ok ([], bytes)
read_rows bound (suc count) prev_row bytes = do
  (row_gap, bytes) ← read_uvarint bytes
  row ← next_index (2 ^ 32) prev_row row_gap
  (cell_count_raw, bytes) ← read_uvarint bytes
  cell_count ← check_count cell_count_raw (length bytes)
  (cells, bytes) ← read_cells bound cell_count 0 bytes
  (rows, bytes) ← read_rows bound count row bytes
  ok ((row, cells) ∷ rows, bytes)

unfoldable pub read_segments : ℕ → ℕ → List ℕ → Read (List SegmentRowDeltas)
read_segments bound zero bytes = ok ([], bytes)
read_segments bound (suc arity) bytes = do
  (row_count_raw, bytes) ← read_uvarint bytes
  row_count ← check_count row_count_raw (length bytes)
  (rows, bytes) ← read_rows bound row_count 0 bytes
  (segs, bytes) ← read_segments bound arity bytes
  ok (rows ∷ segs, bytes)

abbrev pub bytes_eqb : List ℕ → List ℕ → Bool
bytes_eqb [] [] = true
bytes_eqb [] (y ∷ ys) = false
bytes_eqb (x ∷ xs) [] = false
bytes_eqb (x ∷ xs) (y ∷ ys) = x == y && bytes_eqb xs ys

-- `bytes.get(pos..pos + n)`, and the cursor moved past it.
unfoldable pub read_exact : ℕ → List ℕ → Read (List ℕ)
read_exact n bytes =
    if ltb (length bytes) n then err unexpected_eof else ok (take n bytes, drop n bytes)

unfoldable pub read_byte : List ℕ → Read ℕ
read_byte [] = err unexpected_eof
read_byte (b ∷ bytes) = ok (b, bytes)

unfoldable pub end_of_input : List ℕ → Outcome CodecError (Unit {0})
end_of_input [] = ok tt
end_of_input (b ∷ bytes) = err trailing_bytes

unfoldable pub decode_block_delta : List ℕ → ℕ → ℕ → Outcome CodecError BlockDelta
unfolding read_exact read_byte end_of_input
decode_block_delta bytes plaintext_bits arity = do
  guard (leb 1 plaintext_bits && leb plaintext_bits 31) delta_out_of_range
  guard (leb 4 (length bytes) && bytes_eqb (take 4 bytes) magic) bad_magic
  (block_bytes, bytes) ← read_exact 8 (drop 4 bytes)
  (arity_byte, bytes) ← read_byte bytes
  guard (arity_byte == arity) (arity_mismatch arity arity_byte)
  (per_segment, bytes) ← read_segments (2 ^ plaintext_bits) arity bytes
  end_of_input bytes
  ok (record { block = from_le_bytes block_bytes; per_segment = per_segment })

-- `BlockDelta::encoded_len`, by the same loops.
unfoldable pub encoded_len_cells : ℕ → ℕ → Cells → ℕ
encoded_len_cells len prev_off [] = len
encoded_len_cells len prev_off ((offset, delta) ∷ cells) =
    encoded_len_cells (len + uvarint_len (offset - prev_off) + uvarint_len (zigzag_encode delta))
      offset cells

unfoldable pub encoded_len_rows : ℕ → ℕ → SegmentRowDeltas → ℕ
encoded_len_rows len prev_row [] = len
encoded_len_rows len prev_row ((row, cells) ∷ rows) =
    encoded_len_rows
      (encoded_len_cells (len + uvarint_len (row - prev_row) + uvarint_len (length cells)) 0
        (sort_by_key cells))
      row rows

unfoldable pub encoded_len_segments : ℕ → List SegmentRowDeltas → ℕ
encoded_len_segments len [] = len
encoded_len_segments len (seg ∷ segs) =
    encoded_len_segments (encoded_len_rows (len + uvarint_len (length seg)) 0 (sort_by_key seg))
      segs

unfoldable pub encoded_len : BlockDelta → ℕ
encoded_len delta = encoded_len_segments (4 + 8 + 1) delta.per_segment

-- `out.extend_from_slice(&v.to_le_bytes())` for each `u32`.
unfoldable pub write_u32s : List ℕ → List ℕ → List ℕ
write_u32s out [] = out
write_u32s out (v ∷ values) = write_u32s (out ++ to_le_bytes 4 v) values

unfoldable pub encode_u32s : List ℕ → List ℕ
encode_u32s values = write_u32s (write_uvarint [] (length values)) values

unfoldable pub read_u32_loop : ℕ → List ℕ → Read (List ℕ)
read_u32_loop zero bytes = ok ([], bytes)
read_u32_loop (suc len) bytes = do
  (chunk, bytes) ← read_exact 4 bytes
  (values, bytes) ← read_u32_loop len bytes
  ok (from_le_bytes chunk ∷ values, bytes)

unfoldable pub read_u32s : List ℕ → ℕ → Read (List ℕ)
read_u32s bytes max_len = do
  (len, bytes) ← read_uvarint bytes
  guard (leb len max_len) count_exceeds_input
  guard (leb len (length bytes / 4)) count_exceeds_input
  read_u32_loop len bytes

unfoldable pub decode_u32s : List ℕ → ℕ → Outcome CodecError (List ℕ)
decode_u32s bytes max_len = do
  (values, rest) ← read_u32s bytes max_len
  end_of_input rest
  ok values
