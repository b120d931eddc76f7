-- ===== src/Proto/Codec/Sound.antt =====
-- What `decode_block_delta` returns on any input: the checks of the format hold of it.
use private_eth_getbalance_w.Prelude.{
  ℕ, zero, suc, ◌^◌, ◌≤◌, ◌<◌, ◌≡◌, refl, ap, arith, List, [], ◌∷◌, length, All,
}
use private_eth_getbalance_w.Prelude.{
  ok, >>=-eq-ok, ok_first, guard-true, ok-injective, guard, ltb, leb, ◌==◌, ltb→lt, ◌&&◌, take,
  drop,
}
use private_eth_getbalance_w.Prelude.Int.{ℤ, unsigned_abs}
use private_eth_getbalance_w.Proto.Varint.{
  read_uvarint, zigzag_decode, check_count, delta_out_of_range, bad_magic, arity_mismatch,
}
use private_eth_getbalance_w.Proto.Delta.{BlockDelta, Cells, SegmentRowDeltas}
use private_eth_getbalance_w.Proto.Codec.{
  magic, next_index, read_cells, read_rows, read_segments, decode_block_delta, read_exact,
  read_byte, bytes_eqb, end_of_input,
}
use private_eth_getbalance_w.Proto.Codec.Sort.{IsFrom}
use private_eth_getbalance_w.Proto.Codec.RoundTrip.{IsCell}

next_index_ok : (limit prev gap k : ℕ) → next_index limit prev gap ≡ ok k → (prev ≤ k) × (k < limit)
unfolding next_index
next_index_ok limit prev gap k h = ground arith

-- Offsets ascend and fit u16, and every |delta| is below the bound.
abbrev pub IsDecodedCells : ℕ → ℕ → Cells → Type 0
IsDecodedCells bound prev cells = IsFrom prev cells × All (IsCell bound) cells

read_cells_sound :
    (bound count prev : ℕ) (bytes rest : List ℕ) (cells : Cells)
    → read_cells bound count prev bytes ≡ ok (cells, rest)
    → IsDecodedCells bound prev cells
unfolding read_cells
read_cells_sound bound zero prev bytes rest cells e = rw (← ok_first [] cells bytes rest e) (tt, tt)
read_cells_sound bound (suc count) prev bytes rest cells e =
    let ((gap, b1), q1, e1) = >>=-eq-ok (read_uvarint bytes) _ e in
    let (offset, q2, e2) = >>=-eq-ok (next_index (2 ^ 16) prev gap) _ e1 in
    let ((raw, b2), q3, e3) = >>=-eq-ok (read_uvarint b1) _ e2 in
    let delta : ℤ = zigzag_decode raw in
    let (u, q4, e4) = >>=-eq-ok (guard (ltb (unsigned_abs delta) bound) delta_out_of_range) _ e3 in
    let ((tail, b3), q5, e5) = >>=-eq-ok (read_cells bound count offset b2) _ e4 in
    let whole : (offset, delta) ∷ tail ≡ cells = ok_first _ cells b3 rest e5 in
    let (after, fits) = next_index_ok (2 ^ 16) prev gap offset q2 in
    let (from, good) = read_cells_sound bound count offset b2 b3 tail q5 in
    rw (← whole) ((after, from), ((fits, ltb→lt _ _ (guard-true _ delta_out_of_range u q4)), good))

-- Rows ascend and fit u32, and the cells of each are as above.
abbrev pub IsDecodedRow : ℕ → ℕ × Cells → Type 0
IsDecodedRow bound r = (r.0 < 2 ^ 32) × IsDecodedCells bound 0 r.1

abbrev pub IsDecodedRows : ℕ → ℕ → SegmentRowDeltas → Type 0
IsDecodedRows bound prev rows = IsFrom prev rows × All (IsDecodedRow bound) rows

read_rows_sound :
    (bound count prev : ℕ) (bytes rest : List ℕ) (rows : SegmentRowDeltas)
    → read_rows bound count prev bytes ≡ ok (rows, rest)
    → IsDecodedRows bound prev rows
unfolding read_rows
read_rows_sound bound zero prev bytes rest rows e = rw (← ok_first [] rows bytes rest e) (tt, tt)
read_rows_sound bound (suc count) prev bytes rest rows e =
    let ((gap, b1), q1, e1) = >>=-eq-ok (read_uvarint bytes) _ e in
    let (row, q2, e2) = >>=-eq-ok (next_index (2 ^ 32) prev gap) _ e1 in
    let ((raw, b2), q3, e3) = >>=-eq-ok (read_uvarint b1) _ e2 in
    let (n, q4, e4) = >>=-eq-ok (check_count raw (length b2)) _ e3 in
    let ((cells, b3), q5, e5) = >>=-eq-ok (read_cells bound n 0 b2) _ e4 in
    let ((tail, b4), q6, e6) = >>=-eq-ok (read_rows bound count row b3) _ e5 in
    let whole : (row, cells) ∷ tail ≡ rows = ok_first _ rows b4 rest e6 in
    let (after, fits) = next_index_ok (2 ^ 32) prev gap row q2 in
    let (from, good) = read_rows_sound bound count row b3 b4 tail q6 in
    rw (← whole) ((after, from), ((fits, read_cells_sound bound n 0 b2 b3 cells q5), good))

read_segments_sound :
    (bound arity : ℕ) (bytes rest : List ℕ) (segs : List SegmentRowDeltas)
    → read_segments bound arity bytes ≡ ok (segs, rest)
    → All (IsDecodedRows bound 0) segs × (length segs ≡ arity)
unfolding read_segments
read_segments_sound bound zero bytes rest segs e = rw (← ok_first [] segs bytes rest e) (tt, refl)
read_segments_sound bound (suc arity) bytes rest segs e =
    let ((raw, b1), q1, e1) = >>=-eq-ok (read_uvarint bytes) _ e in
    let (n, q2, e2) = >>=-eq-ok (check_count raw (length b1)) _ e1 in
    let ((rows, b2), q3, e3) = >>=-eq-ok (read_rows bound n 0 b1) _ e2 in
    let ((tail, b3), q4, e4) = >>=-eq-ok (read_segments bound arity b2) _ e3 in
    let whole : rows ∷ tail ≡ segs = ok_first _ segs b3 rest e4 in
    let (good, size) = read_segments_sound bound arity b2 b3 tail q4 in
    rw (← whole) ((read_rows_sound bound n 0 b1 b2 rows q3, good), ap suc size)

-- Whatever the bytes, a delta that `decode_block_delta` returns has the expected number of segments,
-- ascending u32 rows, ascending u16 offsets, and every |delta| below 2^plaintext_bits.
pub decode_block_delta_sound :
    (bytes : List ℕ) (plaintext_bits arity : ℕ) (d : BlockDelta)
    → decode_block_delta bytes plaintext_bits arity ≡ ok d
    → All (IsDecodedRows (2 ^ plaintext_bits) 0) d.per_segment × (length d.per_segment ≡ arity)
unfolding decode_block_delta
decode_block_delta_sound bytes bits arity d e =
    let (u1, q1, e1) = >>=-eq-ok (guard (leb 1 bits && leb bits 31) delta_out_of_range) _ e in
    let (u2, q2, e2) =
      >>=-eq-ok (guard (leb 4 (length bytes) && bytes_eqb (take 4 bytes) magic) bad_magic) _ e1 in
    let ((block, b1), q3, e3) = >>=-eq-ok (read_exact 8 (drop 4 bytes)) _ e2 in
    let ((found, b2), q4, e4) = >>=-eq-ok (read_byte b1) _ e3 in
    let (u3, q5, e5) = >>=-eq-ok (guard (found == arity) (arity_mismatch arity found)) _ e4 in
    let ((segs, b3), q6, e6) = >>=-eq-ok (read_segments (2 ^ bits) arity b2) _ e5 in
    let (u4, q7, e7) = >>=-eq-ok (end_of_input b3) _ e6 in
    let same : segs ≡ d.per_segment =
      ap (λ (x : BlockDelta). x.per_segment) (ok-injective _ d e7) in
    rw (← same) (read_segments_sound (2 ^ bits) arity b2 b3 segs q6)
