-- ===== src/Proto/Codec/Length.antt =====
-- `encoded_len` is the length of what `encode_block_delta` writes.
use private_eth_getbalance_w.Prelude.{
  ℕ, ◌+◌, ◌-◌, ◌≡◌, refl, sym, ◌∙◌, ap, arith, List, [], ◌∷◌, ◌++◌, length, length-append, ok,
  panic, leb, Bool-cases, false, ok-injective, inl, inr,
}
use private_eth_getbalance_w.Proto.Varint.{write_uvarint, uvarint_len, zigzag_encode}
use private_eth_getbalance_w.Proto.Varint.Write.{uvarint_len-write_uvarint}
use private_eth_getbalance_w.Proto.Delta.{BlockDelta, Cells, SegmentRowDeltas}
use private_eth_getbalance_w.Proto.Codec.{
  sort_by_key, encode_block_delta, encoded_len, encoded_len_cells, encoded_len_rows,
  encoded_len_segments, to_le_bytes,
}
use private_eth_getbalance_w.Proto.Codec.Sort.{length-sort_by_key}
use private_eth_getbalance_w.Proto.Codec.Write.{cell_bytes, row_bytes, segment_bytes}
use private_eth_getbalance_w.Proto.Codec.RoundTrip.{frame, encode_frame, length-to_le_bytes}

-- The length of a varint in front of more bytes.
varint_front :
    (v : ℕ) (rest : List ℕ) → length (write_uvarint [] v ++ rest) ≡ uvarint_len v + length rest
varint_front v rest =
    omega (arith, length-append (write_uvarint [] v) rest, uvarint_len-write_uvarint v)

cells_len :
    (len prev : ℕ) (cells : Cells)
    → encoded_len_cells len prev cells ≡ len + length (cell_bytes prev cells)
unfolding encoded_len_cells cell_bytes
cells_len len prev [] = omega arith
cells_len len prev ((o, d) ∷ cells) = omega (
  arith,
  cells_len (len + uvarint_len (o - prev) + uvarint_len (zigzag_encode d)) o cells,
  varint_front (o - prev) (write_uvarint [] (zigzag_encode d) ++ cell_bytes o cells),
  varint_front (zigzag_encode d) (cell_bytes o cells),
)

rows_len :
    (len prev : ℕ) (rows : SegmentRowDeltas)
    → encoded_len_rows len prev rows ≡ len + length (row_bytes prev rows)
unfolding encoded_len_rows row_bytes
rows_len len prev [] = omega arith
rows_len len prev ((row, cells) ∷ rows) = rw (length-sort_by_key cells) (
    omega (
      arith,
      rows_len
          (encoded_len_cells (len + uvarint_len (row - prev) + uvarint_len (length cells)) 0
            (sort_by_key cells))
          row rows,
      cells_len (len + uvarint_len (row - prev) + uvarint_len (length cells)) 0 (sort_by_key cells),
      varint_front (row - prev) (
          write_uvarint [] (length cells)
          ++ (cell_bytes 0 (sort_by_key cells) ++ row_bytes row rows)),
      varint_front (length cells) (cell_bytes 0 (sort_by_key cells) ++ row_bytes row rows),
      length-append (cell_bytes 0 (sort_by_key cells)) (row_bytes row rows),
    ))

segments_len :
    (len : ℕ) (segs : List SegmentRowDeltas)
    → encoded_len_segments len segs ≡ len + length (segment_bytes segs)
unfolding encoded_len_segments segment_bytes
segments_len len [] = omega arith
segments_len len (seg ∷ segs) = rw (length-sort_by_key seg) (
    omega (
      arith,
      segments_len (encoded_len_rows (len + uvarint_len (length seg)) 0 (sort_by_key seg)) segs,
      rows_len (len + uvarint_len (length seg)) 0 (sort_by_key seg),
      varint_front (length seg) (row_bytes 0 (sort_by_key seg) ++ segment_bytes segs),
      length-append (row_bytes 0 (sort_by_key seg)) (segment_bytes segs),
    ))

frame_len : (d : BlockDelta) → encoded_len d ≡ length (frame d)
unfolding encoded_len
frame_len d = omega (
  arith,
  segments_len 13 d.per_segment,
  length-append (to_le_bytes 8 d.block) (length d.per_segment ∷ segment_bytes d.per_segment),
  length-to_le_bytes 8 d.block,
)

too_many : (d : BlockDelta) → leb (length d.per_segment) 255 ≡ false → encode_block_delta d ≡ panic
unfolding encode_block_delta
too_many d h = rw h refl

-- `encoded_len` is the number of bytes of every message that the encoder produces.
encoded_len-encode_block_delta :
    (d : BlockDelta) (bytes : List ℕ)
    → encode_block_delta d ≡ ok bytes
    → encoded_len d ≡ length bytes
encoded_len-encode_block_delta d bytes e = elim (Bool-cases (leb (length d.per_segment) 255)) [
  | inl short ↦
      frame_len d
      ∙ ap length (ok-injective (frame d) bytes (sym (encode_frame d (ground arith)) ∙ e))
  | inr long ↦ let stops = too_many d long in cc
]
