-- ===== src/Proto/Codec/Write.antt =====
-- What the encoder writes, with the vector it pushes to taken out, and how long it is.
use private_eth_getbalance_w.Prelude.{
  ℕ, ◌-◌, ◌≤◌, ◌≡◌, sym, ◌∙◌, ap, arith, List, [], ◌∷◌, ◌++◌, length, length-append,
}
use private_eth_getbalance_w.Proto.Varint.{write_uvarint, zigzag_encode}
use private_eth_getbalance_w.Proto.Varint.Write.{write_uvarint-append, length-write_uvarint}
use private_eth_getbalance_w.Proto.Delta.{Cells, SegmentRowDeltas}
use private_eth_getbalance_w.Proto.Codec.{write_cells, write_rows, write_segments, sort_by_key}
use mathlib.Core.List.{append-nil, append_assoc}

two_writes :
    (a b : ℕ) (out : List ℕ)
    → write_uvarint (write_uvarint out a) b ≡ out ++ (write_uvarint [] a ++ write_uvarint [] b)
two_writes a b out =
    write_uvarint-append b (write_uvarint out a)
    ∙ ap (λ (l : List ℕ). l ++ write_uvarint [] b) (write_uvarint-append a out)
    ∙ append_assoc out (write_uvarint [] a) (write_uvarint [] b)

-- The bytes of sorted cells, of sorted rows, and of segments.
unfoldable pub cell_bytes : ℕ → Cells → List ℕ
cell_bytes prev [] = []
cell_bytes prev ((o, d) ∷ cells) =
    write_uvarint [] (o - prev) ++ (write_uvarint [] (zigzag_encode d) ++ cell_bytes o cells)

unfoldable pub row_bytes : ℕ → SegmentRowDeltas → List ℕ
row_bytes prev [] = []
row_bytes prev ((row, cells) ∷ rows) =
    write_uvarint [] (row - prev)
    ++ (write_uvarint [] (length (sort_by_key cells))
        ++ (cell_bytes 0 (sort_by_key cells) ++ row_bytes row rows))

unfoldable pub segment_bytes : List SegmentRowDeltas → List ℕ
segment_bytes [] = []
segment_bytes (seg ∷ segs) =
    write_uvarint [] (length (sort_by_key seg))
    ++ (row_bytes 0 (sort_by_key seg) ++ segment_bytes segs)

pub write_cells-cell_bytes :
    (out : List ℕ) (prev : ℕ) (cells : Cells)
    → write_cells out prev cells ≡ out ++ cell_bytes prev cells
unfolding write_cells cell_bytes
write_cells-cell_bytes out prev [] = sym (append-nil out)
write_cells-cell_bytes out prev ((o, d) ∷ cells) =
    write_cells-cell_bytes (write_uvarint (write_uvarint out (o - prev)) (zigzag_encode d)) o cells
    ∙ rw (two_writes (o - prev) (zigzag_encode d) out) (simp append_assoc)

pub write_rows-row_bytes :
    (out : List ℕ) (prev : ℕ) (rows : SegmentRowDeltas)
    → write_rows out prev rows ≡ out ++ row_bytes prev rows
unfolding write_rows row_bytes
write_rows-row_bytes out prev [] = sym (append-nil out)
write_rows-row_bytes out prev ((row, cells) ∷ rows) =
    let sorted : Cells = sort_by_key cells in
    let head : List ℕ = write_uvarint (write_uvarint out (row - prev)) (length sorted) in
    write_rows-row_bytes (write_cells head 0 sorted) row rows
    ∙ rw (write_cells-cell_bytes head 0 sorted, two_writes (row - prev) (length sorted) out)
        (simp append_assoc)

pub write_segments-segment_bytes :
    (out : List ℕ) (segs : List SegmentRowDeltas)
    → write_segments out segs ≡ out ++ segment_bytes segs
unfolding write_segments segment_bytes
write_segments-segment_bytes out [] = sym (append-nil out)
write_segments-segment_bytes out (seg ∷ segs) =
    let rows : SegmentRowDeltas = sort_by_key seg in
    let head : List ℕ = write_uvarint out (length rows) in
    write_segments-segment_bytes (write_rows head 0 rows) segs
    ∙ rw (write_rows-row_bytes head 0 rows, write_uvarint-append (length rows) out)
        (simp append_assoc)

-- Each entry takes a byte at least, so a true count never exceeds what remains.
pub length-cell_bytes : (prev : ℕ) (cells : Cells) → length cells ≤ length (cell_bytes prev cells)
unfolding cell_bytes
length-cell_bytes prev [] = omega arith
length-cell_bytes prev ((o, d) ∷ cells) =
    rw (length-append, length-append)
      (omega (arith, length-write_uvarint (o - prev), length-cell_bytes o cells))

pub length-row_bytes :
    (prev : ℕ) (rows : SegmentRowDeltas) → length rows ≤ length (row_bytes prev rows)
unfolding row_bytes
length-row_bytes prev [] = omega arith
length-row_bytes prev ((row, cells) ∷ rows) =
    rw (length-append, length-append, length-append)
      (omega (arith, length-write_uvarint (row - prev), length-row_bytes row rows))
