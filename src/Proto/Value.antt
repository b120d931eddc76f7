-- ===== src/Proto/Value.antt =====
-- crates/risepir-proto/src/value.rs: the value codec, `key_tag ‖ balance ‖ checksum` packed as one
-- little-endian bit string. An indexing expression out of bounds is a panic. The hash of the address,
-- `xxh3_64_with_seed` of a third-party crate, is a parameter.
pub mod Bits
pub mod Fields
pub mod Decode
pub mod Total
pub mod RoundTrip
mod Tests
use private_eth_getbalance_w.Prelude.{
  ℕ, zero, suc, ◌+◌, ◌-◌, ◌*◌, ◌/◌, ◌%◌, ◌^◌, List, [], ◌∷◌, Bool, true, ◌||◌, not,
}
use private_eth_getbalance_w.Prelude.{
  Outcome, ok, err, panic, ◌>>=◌, ◌>>◌, guard, or_panic, length, get_elem?, set, take, replicate,
  is_ok, leb, ltb, ◌==◌, if◌then◌else◌, bit_and, bit_or, bit_xor,
}
use private_eth_getbalance_w.Proto.Delta.{AddressHash, Balance}
use private_eth_getbalance_w.Proto.Codec.{to_le_bytes}

pub data Lookup : Type 0 where
  found : Balance → Lookup
  not_found decode_failed : Lookup

pub record ValueCodec : Type 0 where
  pub key_tag_bits : ℕ
  pub balance_bits : ℕ
  pub checksum_bits : ℕ

pub data ValueError : Type 0 where
  balance_overflow invalid_width : ValueError

abbrev pub key_tag_seed : ℕ
key_tag_seed = 0x5249_5345_5f54_4147

abbrev pub fnv_offset_basis : ℕ
fnv_offset_basis = 0xcbf2_9ce4_8422_2325

abbrev pub fnv_prime : ℕ
fnv_prime = 0x0000_0100_0000_01b3

fnv1a64_loop : ℕ → List ℕ → ℕ
fnv1a64_loop hash [] = hash
fnv1a64_loop hash (b ∷ bytes) = fnv1a64_loop (bit_xor hash b * fnv_prime % 2 ^ 64) bytes

unfoldable pub fnv1a64 : List ℕ → ℕ
unfolding fnv1a64_loop
fnv1a64 bytes = fnv1a64_loop fnv_offset_basis bytes

-- One round of `write_bits`. A shift of a u128 takes the low seven bits of its count.
unfoldable pub write_bit : {E : Type 0} → ℕ → ℕ → ℕ → List ℕ → Outcome E (List ℕ)
write_bit value i bit_pos buf =
    if bit_and (value / 2 ^ (i % 128)) 1 == 1
    then (do
      byte ← or_panic (get_elem? buf (bit_pos / 8))
      ok (set buf (bit_pos / 8) (bit_or byte (2 ^ (bit_pos % 8)))))
    else ok buf

-- The rounds from `i` on, `left` of them.
unfoldable pub write_bits_loop : {E : Type 0} → ℕ → ℕ → List ℕ → ℕ → ℕ → Outcome E (List ℕ)
write_bits_loop zero i buf bit_pos value = ok buf
write_bits_loop (suc left) i buf bit_pos value = do
  buf ← write_bit value i bit_pos buf
  write_bits_loop left (i + 1) buf (bit_pos + 1) value

-- The buffer; the cursor afterwards is `bit_pos + num_bits`.
unfoldable pub write_bits : {E : Type 0} → List ℕ → ℕ → ℕ → ℕ → Outcome E (List ℕ)
write_bits buf bit_pos value num_bits = write_bits_loop num_bits 0 buf bit_pos value

unfoldable pub read_bit : {E : Type 0} → List ℕ → ℕ → ℕ → ℕ → Outcome E ℕ
read_bit buf i bit_pos value = do
  byte ← or_panic (get_elem? buf (bit_pos / 8))
  ok (if not (bit_and byte (2 ^ (bit_pos % 8)) == 0) then bit_or value (2 ^ (i % 128)) else value)

unfoldable pub read_bits_loop : {E : Type 0} → ℕ → ℕ → List ℕ → ℕ → ℕ → Outcome E ℕ
read_bits_loop zero i buf bit_pos value = ok value
read_bits_loop (suc left) i buf bit_pos value = do
  value ← read_bit buf i bit_pos value
  read_bits_loop left (i + 1) buf (bit_pos + 1) value

unfoldable pub read_bits : {E : Type 0} → List ℕ → ℕ → ℕ → Outcome E ℕ
read_bits buf bit_pos num_bits = read_bits_loop num_bits 0 buf bit_pos 0

-- `n.div_ceil(8)`
abbrev pub div_ceil_8 : ℕ → ℕ
div_ceil_8 n = if n % 8 == 0 then n / 8 else n / 8 + 1

abbrev pub value_bits : ValueCodec → ℕ
value_bits c = (c.key_tag_bits + c.balance_bits + c.checksum_bits) % 2 ^ 32

unfoldable pub check_widths : ValueCodec → Outcome ValueError (Unit {0})
check_widths c =
    guard (not (ltb 64 c.key_tag_bits || ltb 128 c.balance_bits || ltb 64 c.checksum_bits))
      invalid_width

unfoldable pub fits_balance_bits : ValueCodec → Balance → Bool
fits_balance_bits c balance =
    if leb 128 c.balance_bits then true else ltb balance (2 ^ c.balance_bits)

-- `bytes[..n]`
unfoldable pub slice_to : {E : Type 0} → ℕ → List ℕ → Outcome E (List ℕ)
slice_to n bytes = if leb n (length bytes) then ok (take n bytes) else panic

-- The balance is hashed over the bytes of its field only.
unfoldable pub checksum : {E : Type 0} → ValueCodec → Balance → Outcome E ℕ
unfolding fnv1a64 slice_to
checksum c balance = if c.checksum_bits == 0 then ok 0 else do
  bytes ← slice_to (div_ceil_8 c.balance_bits) (to_le_bytes 16 balance)
  let hash = fnv1a64 bytes
  ok (if leb 64 c.checksum_bits then hash else bit_and hash (2 ^ c.checksum_bits - 1))

unfoldable pub extract_key_tag : {E : Type 0} → ValueCodec → List ℕ → Outcome E ℕ
extract_key_tag c value_bytes = do
  stored ← read_bits value_bytes 0 c.key_tag_bits
  ok (stored % 2 ^ 64)

module _ (xxh3_64_with_seed : AddressHash → ℕ → ℕ) where
  unfoldable pub key_tag : ValueCodec → AddressHash → ℕ
  key_tag c addr =
      let full = xxh3_64_with_seed addr key_tag_seed in
      if c.key_tag_bits == 0
      then 0
      else if leb 64 c.key_tag_bits
      then full
      else bit_and full (2 ^ c.key_tag_bits - 1)

  unfoldable pub encode : ValueCodec → AddressHash → Balance → Outcome ValueError (List ℕ)
  encode c addr balance = do
    check_widths c
    guard (fits_balance_bits c balance) balance_overflow
    let buf = replicate (div_ceil_8 (value_bits c)) 0
    buf ← write_bits buf 0 (key_tag c addr) c.key_tag_bits
    buf ← write_bits buf c.key_tag_bits balance c.balance_bits
    sum ← checksum c balance
    write_bits buf (c.key_tag_bits + c.balance_bits) sum c.checksum_bits

  -- The comparisons of `decode`, once its three fields are read.
  unfoldable pub judge :
      {E : Type 0} → ValueCodec → AddressHash → ℕ → Balance → ℕ → Outcome E Lookup
  judge c addr stored_key_tag balance stored_checksum =
      if not (stored_key_tag == key_tag c addr) then ok not_found else do
        sum ← checksum c balance
        if not (stored_checksum == sum) then ok decode_failed else ok (found balance)

  unfoldable pub decode : ValueCodec → AddressHash → List ℕ → Outcome ⊥ Lookup
  unfolding check_widths
  decode c addr value_bytes =
      if not (is_ok (check_widths c))
      then ok decode_failed
      else if not (length value_bytes == div_ceil_8 (value_bits c))
      then ok decode_failed
      else do
        stored_key_tag ← read_bits value_bytes 0 c.key_tag_bits
        balance ← read_bits value_bytes c.key_tag_bits c.balance_bits
        stored_checksum ← read_bits value_bytes (c.key_tag_bits + c.balance_bits) c.checksum_bits
        judge c addr (stored_key_tag % 2 ^ 64) balance (stored_checksum % 2 ^ 64)
