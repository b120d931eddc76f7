-- ===== src/Proto/Varint/Zigzag.antt =====
-- The zigzag map between `i64` and `u64`.
use private_eth_getbalance_w.Prelude.{ℕ, suc, ◌+◌, ◌-◌, ◌*◌, ◌/◌, ◌%◌, ◌^◌, ◌<◌, ◌≡◌, arith}
use private_eth_getbalance_w.Prelude.{dec_lt}
use private_eth_getbalance_w.Prelude.Int.{ℤ, pos, negsuc, IsI64}
use private_eth_getbalance_w.Prelude.Bits.{bit_xor-zero, bit_xor_ones, bit_and_mask}
use private_eth_getbalance_w.Proto.Varint.{zigzag_encode, zigzag_decode, IsU64}

-- Zigzag in plain arithmetic: 2 n for n, and 2 n + 1 for -(n + 1).
pub zigzag_encode-pos : (n : ℕ) → n < 2 ^ 63 → zigzag_encode (pos n) ≡ n * 2
unfolding zigzag_encode
zigzag_encode-pos n h = rw bit_xor-zero (omega arith)

pub zigzag_encode-negsuc : (n : ℕ) → n < 2 ^ 63 → zigzag_encode (negsuc n) ≡ n * 2 + 1
unfolding zigzag_encode
zigzag_encode-negsuc n h =
    rw (bit_xor_ones 64 ((2 ^ 64 - suc n) * 2 % 2 ^ 64) (omega arith)) (omega arith)

zigzag_decode_even : (n : ℕ) → n < 2 ^ 63 → zigzag_decode (n * 2) ≡ pos n
unfolding zigzag_decode
zigzag_decode_even n h = ground (arith, bit_and_mask 1 (n * 2), bit_xor-zero n)

zigzag_decode_odd : (n : ℕ) → n < 2 ^ 63 → zigzag_decode (n * 2 + 1) ≡ negsuc n
unfolding zigzag_decode
zigzag_decode_odd n h = ground (arith, bit_and_mask 1 (n * 2 + 1), bit_xor_ones 64 n)

-- `zigzag_decode` inverts `zigzag_encode` on every i64, and the code is a u64.
pub zigzag_decode-zigzag_encode :
    (v : ℤ) → IsI64 v → (zigzag_decode (zigzag_encode v) ≡ v) × IsU64 (zigzag_encode v)
zigzag_decode-zigzag_encode (pos n) h =
    rw (zigzag_encode-pos n h.0) (zigzag_decode_even n h.0, omega arith)
zigzag_decode-zigzag_encode (negsuc n) h =
    rw (zigzag_encode-negsuc n (omega arith)) (zigzag_decode_odd n (omega arith), omega arith)

-- `zigzag_encode` inverts `zigzag_decode` on every u64: the map is a bijection.
zigzag_encode-zigzag_decode :
    (u : ℕ) → IsU64 u → (zigzag_encode (zigzag_decode u) ≡ u) × IsI64 (zigzag_decode u)
zigzag_encode-zigzag_decode u h = elim (dec_lt (u % 2) 1) [
  | yes p ↦
      let half : u ≡ u / 2 * 2 = omega arith in
      rw (half, zigzag_decode_even (u / 2) (omega arith))
        (zigzag_encode-pos (u / 2) (omega arith), omega arith)
  | no p ↦
      let half : u ≡ u / 2 * 2 + 1 = omega arith in
      rw (half, zigzag_decode_odd (u / 2) (omega arith))
        (zigzag_encode-negsuc (u / 2) (omega arith), omega arith)
]
