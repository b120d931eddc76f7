-- ===== src/Proto/Codec/RoundTrip.antt =====
-- `decode_block_delta` reads back what `encode_block_delta` wrote, sorted.
use private_eth_getbalance_w.Prelude.{
  ℕ, zero, suc, ◌-◌, ◌/◌, ◌^◌, ◌≤◌, ◌<◌, ◌≡◌, refl, ap, arith, List, [], ◌∷◌, ◌++◌, length,
  length-append, map, All,
}
use private_eth_getbalance_w.Prelude.{ok, ltb, leb, lt→ltb}
use private_eth_getbalance_w.Prelude.Int.{ℤ, unsigned_abs, IsI64}
use private_eth_getbalance_w.Proto.Varint.{write_uvarint, zigzag_encode, check_count, IsU64}
use private_eth_getbalance_w.Proto.Varint.RoundTrip.{read_uvarint-write_uvarint}
use private_eth_getbalance_w.Proto.Varint.Zigzag.{zigzag_decode-zigzag_encode}
use private_eth_getbalance_w.Proto.Delta.{BlockDelta, Cells, SegmentRowDeltas}
use private_eth_getbalance_w.Proto.Codec.{
  magic, sort_by_key, next_index, read_cells, read_rows, read_segments, encode_block_delta,
  decode_block_delta, to_le_bytes, from_le_bytes, read_exact, bytes_eqb,
}
use private_eth_getbalance_w.Prelude.{take, drop, true, false, ◌&&◌, ◌==◌}
use private_eth_getbalance_w.Prelude.Bits.{pow_mono}
use native.Mathlib.Nat.{pow-suc}
use private_eth_getbalance_w.Proto.Codec.Sort.{
  IsFrom, sort_by_key-IsFrom, sort_by_key-All, length-sort_by_key,
}
use private_eth_getbalance_w.Proto.Codec.Write.{
  cell_bytes, row_bytes, segment_bytes, length-cell_bytes, length-row_bytes,
  write_segments-segment_bytes,
}
use mathlib.Core.List.{append-nil, append_assoc}

-- The types and the magnitude bound of a cell, of a row and of a segment.
abbrev pub IsCell : ℕ → ℕ × ℤ → Type 0
IsCell bound c = (c.0 < 2 ^ 16) × (unsigned_abs c.1 < bound)

abbrev pub IsRowOf : ℕ → ℕ × Cells → Type 0
IsRowOf bound r = (r.0 < 2 ^ 32) × (length r.1 < 2 ^ 64) × All (IsCell bound) r.1

abbrev pub IsSegmentOf : ℕ → SegmentRowDeltas → Type 0
IsSegmentOf bound seg = (length seg < 2 ^ 64) × All (IsRowOf bound) seg

next_index_gap :
    (limit prev k : ℕ)
    → prev ≤ k
    → k < limit
    → limit ≤ 2 ^ 64
    → next_index limit prev (k - prev) ≡ ok k
unfolding next_index
next_index_gap limit prev k h lt le = ground arith

abs-IsI64 : (v : ℤ) (bound : ℕ) → unsigned_abs v < bound → bound ≤ 2 ^ 31 → IsI64 v
abs-IsI64 v bound h le = ground arith

read_cells-cell_bytes :
    (bound prev : ℕ) (cells : Cells) (rest : List ℕ)
    → bound ≤ 2 ^ 31
    → IsFrom prev cells
    → All (IsCell bound) cells
    → read_cells bound (length cells) prev (cell_bytes prev cells ++ rest) ≡ ok (cells, rest)
unfolding read_cells cell_bytes
read_cells-cell_bytes bound prev [] rest hb f a = refl
read_cells-cell_bytes bound prev ((o, d) ∷ cells) rest hb f a =
    let (back, word) = zigzag_decode-zigzag_encode d (abs-IsI64 d bound a.0.1 hb) in
    rw (
      append_assoc,
      read_uvarint-write_uvarint (o - prev)
          ((write_uvarint [] (zigzag_encode d) ++ cell_bytes o cells) ++ rest)
          (omega (arith, a.0.0)),
      next_index_gap (2 ^ 16) prev o f.0 a.0.0 (omega arith),
      append_assoc,
      read_uvarint-write_uvarint (zigzag_encode d) (cell_bytes o cells ++ rest) word,
      back,
      lt→ltb _ _ a.0.1,
      read_cells-cell_bytes bound o cells rest hb f.1 a.1,
    )

check_count-le : (count remaining : ℕ) → count ≤ remaining → check_count count remaining ≡ ok count
unfolding check_count
check_count-le count remaining h = ground arith

-- The rows with their cells sorted.
abbrev pub sort_cells : SegmentRowDeltas → SegmentRowDeltas
sort_cells [] = []
sort_cells ((row, cells) ∷ rows) = (row, sort_by_key cells) ∷ sort_cells rows

count_fits : (xs ys : List ℕ) (n : ℕ) → n ≤ length xs → n ≤ length (xs ++ ys)
count_fits xs ys n h = omega (arith, length-append xs ys)

cells_back :
    (bound : ℕ) (cells : Cells) (rest : List ℕ)
    → bound ≤ 2 ^ 31
    → All (IsCell bound) cells
    → read_cells bound (length (sort_by_key cells)) 0 (cell_bytes 0 (sort_by_key cells) ++ rest)
      ≡ ok (sort_by_key cells, rest)
cells_back bound cells rest hb a =
    read_cells-cell_bytes bound 0 (sort_by_key cells) rest hb (sort_by_key-IsFrom cells)
      (sort_by_key-All (IsCell bound) cells a)

read_rows-row_bytes :
    (bound prev : ℕ) (rows : SegmentRowDeltas) (rest : List ℕ)
    → bound ≤ 2 ^ 31
    → IsFrom prev rows
    → All (IsRowOf bound) rows
    → read_rows bound (length rows) prev (row_bytes prev rows ++ rest) ≡ ok (sort_cells rows, rest)
unfolding read_rows row_bytes
read_rows-row_bytes bound prev [] rest hb f a = refl
read_rows-row_bytes bound prev ((row, cells) ∷ rows) rest hb f a =
    let n : ℕ = length (sort_by_key cells) in
    let tail : List ℕ = cell_bytes 0 (sort_by_key cells) ++ (row_bytes row rows ++ rest) in
    let u64 : IsU64 n = rw (length-sort_by_key cells) (a.0.1) in
    rw (
      append_assoc,
      read_uvarint-write_uvarint (row - prev)
          ((write_uvarint [] n ++ (cell_bytes 0 (sort_by_key cells) ++ row_bytes row rows)) ++ rest)
          (omega (arith, a.0.0)),
      next_index_gap (2 ^ 32) prev row f.0 a.0.0 (omega arith),
      append_assoc,
      append_assoc,
      read_uvarint-write_uvarint n tail u64,
      check_count-le n (length tail) (
          count_fits (cell_bytes 0 (sort_by_key cells)) _ n
            (length-cell_bytes 0 (sort_by_key cells))),
      cells_back bound cells (row_bytes row rows ++ rest) hb a.0.2,
      read_rows-row_bytes bound row rows rest hb f.1 a.1,
    )

-- A segment as the decoder returns it: rows sorted, and each row's cells.
abbrev pub sort_segment : SegmentRowDeltas → SegmentRowDeltas
sort_segment seg = sort_cells (sort_by_key seg)

read_segments-segment_bytes :
    (bound : ℕ) (segs : List SegmentRowDeltas) (rest : List ℕ)
    → bound ≤ 2 ^ 31
    → All (IsSegmentOf bound) segs
    → read_segments bound (length segs) (segment_bytes segs ++ rest)
      ≡ ok (map sort_segment segs, rest)
unfolding read_segments segment_bytes
read_segments-segment_bytes bound [] rest hb a = refl
read_segments-segment_bytes bound (seg ∷ segs) rest hb a =
    let n : ℕ = length (sort_by_key seg) in
    let tail : List ℕ = row_bytes 0 (sort_by_key seg) ++ (segment_bytes segs ++ rest) in
    let u64 : IsU64 n = rw (length-sort_by_key seg) (a.0.0) in
    rw (
      append_assoc,
      append_assoc,
      read_uvarint-write_uvarint n tail u64,
      check_count-le n (length tail)
          (count_fits (row_bytes 0 (sort_by_key seg)) _ n (length-row_bytes 0 (sort_by_key seg))),
      read_rows-row_bytes bound 0 (sort_by_key seg) (segment_bytes segs ++ rest) hb
          (sort_by_key-IsFrom seg) (sort_by_key-All (IsRowOf bound) seg a.0.1),
      read_segments-segment_bytes bound segs rest hb a.1,
    )

pub from_le_bytes-to_le_bytes : (n v : ℕ) → v < 256 ^ n → from_le_bytes (to_le_bytes n v) ≡ v
unfolding from_le_bytes to_le_bytes
from_le_bytes-to_le_bytes zero v h = omega arith
from_le_bytes-to_le_bytes (suc n) v h =
    omega
      (arith, pow-suc 256 n, from_le_bytes-to_le_bytes n (v / 256) (omega (arith, pow-suc 256 n)))

pub length-to_le_bytes : (n v : ℕ) → length (to_le_bytes n v) ≡ n
unfolding to_le_bytes
length-to_le_bytes zero v = refl
length-to_le_bytes (suc n) v = ap suc (length-to_le_bytes n (v / 256))

pub take_append : (xs ys : List ℕ) → take (length xs) (xs ++ ys) ≡ xs
take_append [] ys = refl
take_append (x ∷ xs) ys = ap (◌∷◌ x) (take_append xs ys)

pub drop_append : (xs ys : List ℕ) → drop (length xs) (xs ++ ys) ≡ ys
drop_append [] ys = refl
drop_append (x ∷ xs) ys = drop_append xs ys

pub read_exact-append :
    (n : ℕ) (xs ys : List ℕ) → length xs ≡ n → read_exact n (xs ++ ys) ≡ ok (xs, ys)
unfolding read_exact
read_exact-append n xs ys h =
    let enough : ltb (length (xs ++ ys)) (length xs) ≡ false =
      ground (arith, length-append xs ys) in
    rw (← h, enough, take_append xs ys, drop_append xs ys)

-- A delta within the format's types and bound: u64 block, at most 255 segments, u32 rows, u16
-- offsets, and every |delta| below 2^plaintext_bits.
pub record IsEncodable (plaintext_bits : ℕ) (d : BlockDelta) : Type 0 where
  pub bits : (1 ≤ plaintext_bits) × (plaintext_bits ≤ 31)
  pub block : IsU64 d.block
  pub arity : length d.per_segment ≤ 255
  pub segments : All (IsSegmentOf (2 ^ plaintext_bits)) d.per_segment

-- The whole message.
abbrev pub frame : BlockDelta → List ℕ
frame d = magic ++ (to_le_bytes 8 d.block ++ (length d.per_segment ∷ segment_bytes d.per_segment))

pub encode_frame :
    (d : BlockDelta) → length d.per_segment ≤ 255 → encode_block_delta d ≡ ok (frame d)
unfolding encode_block_delta
encode_frame d h =
    let short : leb (length d.per_segment) 255 ≡ true = ground arith in
    let n : ℕ = length d.per_segment in
    rw (short, write_segments-segment_bytes _ d.per_segment)
      (ap (λ (l : List ℕ). ok (magic ++ l))
        (append_assoc (to_le_bytes 8 d.block) (n ∷ []) (segment_bytes d.per_segment)))

bound_le : (bits : ℕ) → bits ≤ 31 → 2 ^ bits ≤ 2 ^ 31
bound_le bits h = pow_mono bits 31 h

pub decode_frame :
    (plaintext_bits : ℕ) (d : BlockDelta)
    → IsEncodable plaintext_bits d
    → decode_block_delta (frame d) plaintext_bits (length d.per_segment)
      ≡ ok (record { block = d.block; per_segment = map sort_segment d.per_segment })
unfolding decode_block_delta
decode_frame plaintext_bits d h =
    let bits : leb 1 plaintext_bits && leb plaintext_bits 31 ≡ true = ground arith in
    let begins : leb 4 (length (frame d)) && bytes_eqb (take 4 (frame d)) magic ≡ true =
      ground arith in
    let same : (length d.per_segment == length d.per_segment) ≡ true = ground arith in
    let segs : read_segments (2 ^ plaintext_bits) (length d.per_segment)
          (segment_bytes d.per_segment)
        ≡ ok (map sort_segment d.per_segment, []) =
      rw append-nil at (
        read_segments-segment_bytes (2 ^ plaintext_bits) d.per_segment []
          (bound_le plaintext_bits h.bits.1) h.segments) in
    rw (
      bits,
      begins,
      read_exact-append 8 (to_le_bytes 8 d.block)
          (length d.per_segment ∷ segment_bytes d.per_segment) (length-to_le_bytes 8 d.block),
      same,
      segs,
      from_le_bytes-to_le_bytes 8 d.block h.block,
    )

-- A delta within the format's types and bounds is encoded without a panic, and decoding the bytes
-- with its number of segments gives it back with rows and offsets in ascending order.
pub decode-encode_block_delta :
    (plaintext_bits : ℕ) (d : BlockDelta)
    → IsEncodable plaintext_bits d
    → (bytes : List ℕ) × (encode_block_delta d ≡ ok bytes)
      × (decode_block_delta bytes plaintext_bits (length d.per_segment)
          ≡ ok (record { block = d.block; per_segment = map sort_segment d.per_segment }))
decode-encode_block_delta plaintext_bits d h =
    (frame d, encode_frame d h.arity, decode_frame plaintext_bits d h)
