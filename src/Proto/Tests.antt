-- ===== src/Proto/Tests.antt =====
-- Runs of the codecs and of `coalesce` on concrete values, and the theorems at concrete inputs.
use private_eth_getbalance_w.Prelude.{ℕ, ◌<◌, ◌≤◌, ◌≡◌, refl, arith, List, [], ◌∷◌, All, ok, err}
use private_eth_getbalance_w.Prelude.Int.{pos, negsuc, checked_add, ◌+ℤ◌}
use private_eth_getbalance_w.Proto.Varint.{unexpected_eof, read_uvarint, zigzag_encode}
use private_eth_getbalance_w.Proto.Delta.{
  BlockDelta, coalesce, last_block, check_run, add_cells, add_rows, add_segments, add_deltas,
  emit_rows, nonzero_cells,
}
use private_eth_getbalance_w.Prelude.Maps.{get, insert}
use private_eth_getbalance_w.Proto.Delta.Sums.{segments_at, run_at}
use private_eth_getbalance_w.Proto.Delta.Coalesce.{coalesce_sum, coalesce-IsCanonical}
use private_eth_getbalance_w.Proto.Delta.Canonical.{IsCanonical}
use private_eth_getbalance_w.Proto.Delta.Stages.{coalesce_stages}
use private_eth_getbalance_w.Proto.Delta.Total.{mass, mass_rows, mass_cells, mass_segments}

read_300 : read_uvarint (0xac ∷ 0x02 ∷ 7 ∷ []) ≡ ok (300, 7 ∷ [])
unfolding read_uvarint
read_300 = refl

-- A padded encoding of 1 is read as 1.
read_padded : read_uvarint (0x81 ∷ 0x00 ∷ []) ≡ ok (1, [])
unfolding read_uvarint
read_padded = refl

read_cut : read_uvarint (0xff ∷ []) ≡ err unexpected_eof
unfolding read_uvarint
read_cut = refl

abbrev marked_bytes : List ℕ
marked_bytes = 0x80 ∷ 0x80 ∷ 0x80 ∷ 0x80 ∷ 0x80 ∷ 0x80 ∷ 0x80 ∷ 0x80 ∷ 0x80 ∷ 0x80 ∷ []

marked : (128 ≤ 128) × (128 < 256)
marked = (omega arith, omega arith)

zigzag_minus_100 : zigzag_encode (negsuc 99) ≡ 199
unfolding zigzag_encode
zigzag_minus_100 = refl

-- A balance that moves by -10 and then by +4, beside two other cells.
abbrev block_7 : BlockDelta
block_7 = record { block = 7; per_segment = ((5, (3, negsuc 9) ∷ []) ∷ []) ∷ [] ∷ [] }

abbrev block_8 : BlockDelta
block_8 = record {
  block = 8;
  per_segment = ((5, (3, pos 4) ∷ (9, pos 2) ∷ []) ∷ []) ∷ ((1, (0, pos 1) ∷ []) ∷ []) ∷ [];
}

abbrev blocks_7_8 : BlockDelta
blocks_7_8 = record {
  block = 8;
  per_segment = ((5, (3, negsuc 5) ∷ (9, pos 2) ∷ []) ∷ []) ∷ ((1, (0, pos 1) ∷ []) ∷ []) ∷ [];
}

coalesce_7_8 : coalesce (block_7 ∷ block_8 ∷ []) ≡ ok blocks_7_8
unfolding coalesce check_run add_deltas add_segments add_rows add_cells emit_rows nonzero_cells get
    insert checked_add ◌+ℤ◌
coalesce_7_8 = refl

coalesce_sum_example :
    segments_at 0 5 3 blocks_7_8.per_segment ≡ run_at 0 5 3 (block_7 ∷ block_8 ∷ [])
coalesce_sum_example = coalesce_sum block_7 (block_8 ∷ []) blocks_7_8 coalesce_7_8 0 5 3

coalesce-IsCanonical_example :
    All IsCanonical blocks_7_8.per_segment × (blocks_7_8.block ≡ last_block block_7 (block_8 ∷ []))
coalesce-IsCanonical_example = coalesce-IsCanonical block_7 (block_8 ∷ []) blocks_7_8 coalesce_7_8

mass_7_8 : mass (block_7 ∷ block_8 ∷ []) ≡ 17
unfolding mass mass_rows mass_cells mass_segments
mass_7_8 = refl

-- A block that takes back what block 7 did in row 5.
abbrev block_9 : BlockDelta
block_9 = record { block = 9; per_segment = ((5, (3, pos 6) ∷ []) ∷ []) ∷ [] ∷ [] }

abbrev blocks_7_9 : BlockDelta
blocks_7_9 = record {
  block = 9;
  per_segment = ((5, (9, pos 2) ∷ []) ∷ []) ∷ ((1, (0, pos 1) ∷ []) ∷ []) ∷ [];
}

coalesce_7_9 : coalesce (block_7 ∷ block_8 ∷ block_9 ∷ []) ≡ ok blocks_7_9
unfolding coalesce check_run add_deltas add_segments add_rows add_cells emit_rows nonzero_cells get
    insert checked_add ◌+ℤ◌
coalesce_7_9 = refl

coalesce_78_9 : coalesce (blocks_7_8 ∷ block_9 ∷ []) ≡ ok blocks_7_9
unfolding coalesce check_run add_deltas add_segments add_rows add_cells emit_rows nonzero_cells get
    insert checked_add ◌+ℤ◌
coalesce_78_9 = refl

coalesce_stages_example : blocks_7_9 ≡ blocks_7_9
coalesce_stages_example =
    coalesce_stages block_7 block_9 (block_8 ∷ []) [] blocks_7_9 blocks_7_8 blocks_7_9 coalesce_7_9
      coalesce_7_8 coalesce_78_9
