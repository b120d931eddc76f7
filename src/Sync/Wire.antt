-- ===== src/Sync/Wire.antt =====
-- A range of the server's ring over the wire: what a client holds after it decoded and ingested it.
use private_eth_getbalance_w.Prelude.{
  ℕ, zero, suc, ◌+◌, ◌&&◌, arith, true, false, ◌≡◌, refl, sym, ◌∙◌, ap, List, [], ◌∷◌, ok, some,
  length, map, leb, ok-injective, if◌then◌else◌, Bool-cases, inl, inr, ◌==◌,
}
use private_eth_getbalance_w.Prelude.Int.{ℤ, pos, ◌+ℤ◌, zero-+ℤ, +ℤ_assoc, +ℤ_comm}
use private_eth_getbalance_w.Proto.Delta.{Cells, SegmentRowDeltas, BlockDelta}
use private_eth_getbalance_w.Proto.Delta.Sums.{cells_at, rows_at, segments_at, run_at}
use private_eth_getbalance_w.Proto.Codec.{
  insert_sorted, sort_by_key, encode_block_delta, decode_block_delta,
}
use private_eth_getbalance_w.Proto.Codec.RoundTrip.{
  IsEncodable, sort_cells, sort_segment, decode-encode_block_delta,
}
use private_eth_getbalance_w.Server.DeltaRing.{DeltaRing, in_range, select, range}
use private_eth_getbalance_w.Server.DeltaRing.Range.{range_sum}
use private_eth_getbalance_w.Client.Pending.{PendingDelta, ingest}
use private_eth_getbalance_w.Client.Pending.Sums.{pending_at}
use private_eth_getbalance_w.Client.Pending.Ingest.{ingest_sum}

-- Two summands change places.
swapped : (a b c : ℤ) → a +ℤ (b +ℤ c) ≡ b +ℤ (a +ℤ c)
swapped a b c = sym (+ℤ_assoc a b c) ∙ ap (λ t. t +ℤ c) (+ℤ_comm a b) ∙ +ℤ_assoc b a c

-- The sum of what the entries of a list give.
unfoldable sum_of : {V : Type 0} → (ℕ × V → ℤ) → List (ℕ × V) → ℤ
sum_of f [] = pos 0
sum_of f (x ∷ l) = f x +ℤ sum_of f l

sum_of-insert_sorted :
    {V : Type 0} (f : ℕ × V → ℤ) (x : ℕ × V) (l : List (ℕ × V))
    → sum_of f (insert_sorted x l) ≡ sum_of f (x ∷ l)
unfolding sum_of insert_sorted
sum_of-insert_sorted f x [] = refl
sum_of-insert_sorted f x (y ∷ l) = elim (Bool-cases (leb x.0 y.0)) [
  | inl first ↦ rw first refl
  | inr later ↦
      rw later (ap (λ t. f y +ℤ t) (sum_of-insert_sorted f x l) ∙ swapped (f y) (f x) (sum_of f l))
]

sum_of-sort_by_key :
    {V : Type 0} (f : ℕ × V → ℤ) (l : List (ℕ × V)) → sum_of f (sort_by_key l) ≡ sum_of f l
unfolding sum_of sort_by_key
sum_of-sort_by_key f [] = refl
sum_of-sort_by_key f (x ∷ l) =
    sum_of-insert_sorted f x (sort_by_key l) ∙ ap (λ t. f x +ℤ t) (sum_of-sort_by_key f l)

abbrev cell_part : ℕ → ℕ × ℤ → ℤ
cell_part o x = if x.0 == o then x.1 else pos 0

cells_at_sum : (o : ℕ) (cells : Cells) → cells_at o cells ≡ sum_of (cell_part o) cells
unfolding cells_at sum_of
cells_at_sum o [] = refl
cells_at_sum o (x ∷ cells) = ap (λ t. cell_part o x +ℤ t) (cells_at_sum o cells)

cells_at-sort_by_key : (o : ℕ) (cells : Cells) → cells_at o (sort_by_key cells) ≡ cells_at o cells
cells_at-sort_by_key o cells =
    cells_at_sum o (sort_by_key cells)
    ∙ sum_of-sort_by_key (cell_part o) cells
    ∙ sym (cells_at_sum o cells)

abbrev row_part : ℕ → ℕ → ℕ × Cells → ℤ
row_part r o x = if x.0 == r then cells_at o x.1 else pos 0

rows_at_sum : (r o : ℕ) (rows : SegmentRowDeltas) → rows_at r o rows ≡ sum_of (row_part r o) rows
unfolding rows_at sum_of
rows_at_sum r o [] = refl
rows_at_sum r o (x ∷ rows) = ap (λ t. row_part r o x +ℤ t) (rows_at_sum r o rows)

rows_at-sort_cells :
    (r o : ℕ) (rows : SegmentRowDeltas) → rows_at r o (sort_cells rows) ≡ rows_at r o rows
unfolding rows_at
rows_at-sort_cells r o [] = refl
rows_at-sort_cells r o ((row, cells) ∷ rows) =
    rw (cells_at-sort_by_key o cells, rows_at-sort_cells r o rows) refl

rows_at-sort_segment :
    (r o : ℕ) (seg : SegmentRowDeltas) → rows_at r o (sort_segment seg) ≡ rows_at r o seg
rows_at-sort_segment r o seg =
    rows_at-sort_cells r o (sort_by_key seg)
    ∙ rows_at_sum r o (sort_by_key seg)
    ∙ sum_of-sort_by_key (row_part r o) seg
    ∙ sym (rows_at_sum r o seg)

segments_at-sort_segment :
    (s r o : ℕ) (segs : List SegmentRowDeltas)
    → segments_at s r o (map sort_segment segs) ≡ segments_at s r o segs
unfolding segments_at
segments_at-sort_segment s r o [] = refl
segments_at-sort_segment zero r o (seg ∷ segs) = rows_at-sort_segment r o seg
segments_at-sort_segment (suc s) r o (seg ∷ segs) = segments_at-sort_segment s r o segs

-- The sum, for a cell, over the deltas of a list whose blocks are `lo + 1` to `hi`.
unfoldable pub window_at : ℕ → ℕ → ℕ → ℕ → ℕ → List BlockDelta → ℤ
window_at lo hi s r o [] = pos 0
window_at lo hi s r o (d ∷ ds) =
    (if leb (lo + 1) d.block && leb d.block hi then segments_at s r o d.per_segment else pos 0)
    +ℤ window_at lo hi s r o ds

run_at-select :
    (lo hi s r o : ℕ) (ds : List BlockDelta)
    → run_at s r o (select lo hi ds) ≡ window_at lo hi s r o ds
unfolding run_at select window_at
run_at-select lo hi s r o [] = refl
run_at-select lo hi s r o (d ∷ ds) = elim (Bool-cases (in_range lo hi d)) [
  | inl inside ↦
      let of_window : leb (lo + 1) d.block && leb d.block hi ≡ true = ground arith in
      rw (inside, of_window, run_at-select lo hi s r o ds) refl
  | inr outside ↦
      let of_none : leb (lo + 1) d.block && leb d.block hi ≡ false = ground arith in
      rw (outside, of_none, zero-+ℤ) (run_at-select lo hi s r o ds)
]

-- A client that ingests, with success, what was decoded of the bytes that a range of the ring, of the
-- format's types and bounds, was encoded to, adds for each cell the sum of the cell's deltas over those deltas
-- of the ring whose blocks are `lo + 1` to `hi`, and no others, and moves its head to the range's block.
pub synced_range :
    (lo hi plaintext_bits : ℕ) (ring : DeltaRing) (d sent : BlockDelta) (bytes : List ℕ)
    (p p' : PendingDelta)
    → range lo hi ring ≡ some d
    → IsEncodable plaintext_bits d
    → encode_block_delta d ≡ ok bytes
    → decode_block_delta bytes plaintext_bits (length d.per_segment) ≡ ok sent
    → ingest sent p ≡ (p', ok tt)
    → ((s r o : ℕ)
        → pending_at s r o p'.per_segment
          ≡ pending_at s r o p.per_segment +ℤ window_at lo hi s r o ring.buf)
      × (p'.head ≡ d.block)
synced_range lo hi plaintext_bits ring d sent bytes p p' answered h encoded decoded e =
    let (bytes', encoded', decoded') = decode-encode_block_delta plaintext_bits d h in
    let same : bytes' ≡ bytes = ok-injective bytes' bytes (sym encoded' ∙ encoded) in
    let back : record { block = d.block; per_segment = map sort_segment d.per_segment } ≡ sent =
      ok-injective _ sent (sym decoded' ∙ rw same decoded) in
    let (sums, at, later) = ingest_sum sent p p' e in
    (
      (λ s r o.
          sums s r o
          ∙ ap (λ t. pending_at s r o p.per_segment +ℤ t)
              (ap (λ m. segments_at s r o m.per_segment) (sym back)
                ∙ segments_at-sort_segment s r o d.per_segment
                ∙ range_sum lo hi ring d answered s r o
                ∙ run_at-select lo hi s r o ring.buf)),
      at ∙ ap (λ m. m.block) (sym back),
    )
