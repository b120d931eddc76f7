-- ===== src/Proto/Value/Decode.antt =====
-- What the value codec's `decode` returns on any bytes.
use private_eth_getbalance_w.Prelude.{
  ℕ, ◌+◌, ◌-◌, ◌*◌, ◌%◌, ◌^◌, ◌<◌, ◌≤◌, ◌≡◌, refl, sym, ◌∙◌, subst, arith, List, [], ◌∷◌, ◌++◌,
  true, false, ◌||◌, inl, inr, Bool-cases,
}
use private_eth_getbalance_w.Prelude.{
  ok, if◌then◌else◌, length, take, length-append, All, leb, ltb, ◌==◌, bit_and, bit_xor,
}
use private_eth_getbalance_w.Prelude.Bits.{bit_and_mask, pow_mono, pow-pos}
use private_eth_getbalance_w.Proto.Varint.{IsByte}
use private_eth_getbalance_w.Proto.Delta.{AddressHash, Balance}
use private_eth_getbalance_w.Proto.Codec.{to_le_bytes}
use private_eth_getbalance_w.Proto.Codec.RoundTrip.{length-to_le_bytes}
use private_eth_getbalance_w.Proto.Value.{
  ValueCodec, fnv1a64_loop, fnv1a64, fnv_prime, fnv_offset_basis, div_ceil_8, value_bits,
  check_widths, slice_to, checksum, judge, decode, read_bits,
}
use private_eth_getbalance_w.Proto.Value.Bits.{bits_of}
use private_eth_getbalance_w.Proto.Value.Fields.{
  number, IsBit, middle, bits_of-IsBit, read_bits-number,
}
use native.Mathlib.Nat.{pow-suc}
use mathlib.Core.List.{append_assoc}

-- Widths that the codec can represent.
pub record IsRepresentable (c : ValueCodec) : Type 0 where
  pub tag : c.key_tag_bits ≤ 64
  pub balance : c.balance_bits ≤ 128
  pub sum : c.checksum_bits ≤ 64

-- The checksum without the slice that could panic.
unfoldable pub sum_of : ValueCodec → Balance → ℕ
sum_of c balance =
    let hash = fnv1a64 (take (div_ceil_8 c.balance_bits) (to_le_bytes 16 balance)) in
    if c.checksum_bits == 0
    then 0
    else if leb 64 c.checksum_bits
    then hash
    else bit_and hash (2 ^ c.checksum_bits - 1)

ceil_bound : (n m : ℕ) → n ≤ 8 * m → div_ceil_8 n ≤ m
ceil_bound n m h = ground arith

pub checksum-sum_of :
    {E : Type 0} (c : ValueCodec) (balance : Balance)
    → c.balance_bits ≤ 128
    → checksum {E = E} c balance ≡ ok (sum_of c balance)
unfolding checksum sum_of slice_to
checksum-sum_of c balance h =
    let enough : leb (div_ceil_8 c.balance_bits) (length (to_le_bytes 16 balance)) ≡ true =
      ground (arith, length-to_le_bytes 16 balance, ceil_bound c.balance_bits 16 (omega arith)) in
    elim (Bool-cases (c.checksum_bits == 0)) [
      | inl none ↦ rw none refl
      | inr some ↦ rw (some, enough) refl
    ]

fnv_loop_bound : (hash : ℕ) (bytes : List ℕ) → hash < 2 ^ 64 → fnv1a64_loop hash bytes < 2 ^ 64
unfolding fnv1a64_loop
fnv_loop_bound hash [] h = h
fnv_loop_bound hash (b ∷ bytes) h =
    fnv_loop_bound (bit_xor hash b * fnv_prime % 2 ^ 64) bytes (omega arith)

fnv_bound : (bytes : List ℕ) → fnv1a64 bytes < 2 ^ 64
unfolding fnv1a64
fnv_bound bytes = fnv_loop_bound fnv_offset_basis bytes (omega arith)

pub masked :
    (full n : ℕ)
    → full < 2 ^ 64
    → n ≤ 64
    → (if leb 64 n then full else bit_and full (2 ^ n - 1)) < 2 ^ n
masked full n h le = elim (Bool-cases (leb 64 n)) [
  | inl top ↦ let e : n ≡ 64 = ground arith in rw (top, e) h
  | inr low ↦ rw low (omega (arith, bit_and_mask n full, pow-pos n))
]

pub sum_of_bound :
    (c : ValueCodec) (balance : Balance)
    → c.checksum_bits ≤ 64
    → sum_of c balance < 2 ^ c.checksum_bits
unfolding sum_of
sum_of_bound c balance h = elim (Bool-cases (c.checksum_bits == 0)) [
  | inl none ↦ rw none (pow-pos c.checksum_bits)
  | inr some ↦ rw some (masked _ c.checksum_bits (fnv_bound _) h)
]

number_bound : (xs : List ℕ) → All IsBit xs → number xs < 2 ^ length xs
number_bound [] a = omega arith
number_bound (x ∷ xs) a = omega (arith, pow-suc 2 (length xs), number_bound xs a.1, a.0)

pub check_widths-Ok : (c : ValueCodec) → IsRepresentable c → check_widths c ≡ ok tt
unfolding check_widths
check_widths-Ok c w =
    let fine : ltb 64 c.key_tag_bits || ltb 128 c.balance_bits || ltb 64 c.checksum_bits ≡ false =
      ground (arith, w.tag, w.balance, w.sum) in
    rw fine refl

-- The bytes hold the three fields, in their order, and padding.
pub record Packed (c : ValueCodec) (bytes tag balance sum padding : List ℕ) : Type 0 where
  pub bits : bits_of bytes ≡ tag ++ (balance ++ (sum ++ padding))
  pub all : All IsByte bytes
  pub tag_len : length tag ≡ c.key_tag_bits
  pub balance_len : length balance ≡ c.balance_bits
  pub sum_len : length sum ≡ c.checksum_bits

pub fields_fit :
    (c : ValueCodec)
    → IsRepresentable c
    → value_bits c ≡ c.key_tag_bits + c.balance_bits + c.checksum_bits
fields_fit c w = omega (arith, w.tag, w.balance, w.sum)

word :
    (xs : List ℕ) (n : ℕ) → All IsBit xs → length xs ≡ n → n ≤ 64 → number xs % 2 ^ 64 ≡ number xs
word xs n a e h = omega (arith, number_bound xs a, pow_mono (length xs) 64 (omega arith))

module _ (xxh3_64_with_seed : AddressHash → ℕ → ℕ) where
  pub decode-Packed :
      (c : ValueCodec) (addr : AddressHash) (bytes tag balance sum padding : List ℕ)
      → IsRepresentable c
      → length bytes ≡ div_ceil_8 (value_bits c)
      → Packed c bytes tag balance sum padding
      → decode xxh3_64_with_seed c addr bytes
        ≡ judge xxh3_64_with_seed c addr (number tag) (number balance) (number sum)
  unfolding decode
  decode-Packed c addr bytes tag balance sum padding w size p =
      let same : (length bytes == div_ceil_8 (value_bits c)) ≡ true = ground arith in
      let a = subst (All IsBit) p.bits (bits_of-IsBit bytes) in
      let r1 : read_bits {E = ⊥} bytes 0 c.key_tag_bits ≡ ok (number tag) =
        read_bits-number c.key_tag_bits bytes [] tag (balance ++ (sum ++ padding)) p.tag_len
          (omega (arith, w.tag)) (record { bits = p.bits; bytes = p.all }) in
      let r2 : read_bits {E = ⊥} bytes (length tag) c.balance_bits ≡ ok (number balance) =
        read_bits-number c.balance_bits bytes tag balance (sum ++ padding) p.balance_len w.balance
          (record { bits = p.bits; bytes = p.all }) in
      let r3 : read_bits {E = ⊥} bytes (length (tag ++ balance)) c.checksum_bits ≡ ok (number sum) =
        read_bits-number c.checksum_bits bytes (tag ++ balance) sum padding p.sum_len
          (omega (arith, w.sum))
          (record {
            bits = p.bits ∙ sym (append_assoc tag balance (sum ++ padding));
            bytes = p.all;
          }) in
      let at3 : length (tag ++ balance) ≡ c.key_tag_bits + c.balance_bits =
        omega (arith, length-append tag balance, p.tag_len, p.balance_len) in
      rw
        (
          check_widths-Ok c w,
          same,
          r1,
          rw p.tag_len at r2,
          rw at3 at r3,
          word tag c.key_tag_bits (middle [] tag _ a) p.tag_len w.tag,
          word sum c.checksum_bits
              (middle (tag ++ balance) sum padding
                (subst (All IsBit) (sym (append_assoc tag balance (sum ++ padding))) a))
              p.sum_len w.sum,
        )
        refl
