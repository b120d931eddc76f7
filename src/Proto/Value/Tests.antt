-- ===== src/Proto/Value/Tests.antt =====
-- Runs of the value codec, and its theorems at concrete inputs.
use private_eth_getbalance_w.Prelude.{
  ℕ, ◌+◌, ◌*◌, ◌%◌, ◌^◌, ◌≡◌, refl, arith, List, [], ◌∷◌, All, length, ok, if◌then◌else◌, ◌==◌,
}
use private_eth_getbalance_w.Proto.Varint.{IsByte}
use private_eth_getbalance_w.Proto.Delta.{AddressHash}
use private_eth_getbalance_w.Proto.Codec.{to_le_bytes}
use private_eth_getbalance_w.Proto.Value.{
  ValueCodec, found, not_found, encode, decode, extract_key_tag, key_tag, div_ceil_8, value_bits,
  check_widths, fits_balance_bits, checksum, fnv1a64, slice_to, write_bits, write_bits_loop,
  write_bit,
}
use private_eth_getbalance_w.Proto.Value.Decode.{IsRepresentable}
use private_eth_getbalance_w.Proto.Value.Total.{verdict, decode-verdict}
use private_eth_getbalance_w.Proto.Value.RoundTrip.{decode-encode}

-- A stand-in for the hash of the addresses.
abbrev toy_hash : AddressHash → ℕ → ℕ
toy_hash addr seed = (addr * 2654435761 + seed) % 2 ^ 64

abbrev narrow : ValueCodec
narrow = record { key_tag_bits = 5; balance_bits = 9; checksum_bits = 4 }

narrow-IsRepresentable : IsRepresentable narrow
narrow-IsRepresentable = record { tag = omega arith; balance = omega arith; sum = omega arith }

abbrev slot : List ℕ
slot = 0x9e ∷ 0xa5 ∷ 0x03 ∷ []

encode_300 : encode toy_hash narrow 7 300 ≡ ok slot
unfolding encode check_widths fits_balance_bits key_tag checksum fnv1a64 slice_to write_bits
    write_bits_loop write_bit to_le_bytes
encode_300 = refl

decode-encode_example :
    (bytes : List ℕ) × (encode toy_hash narrow 7 300 ≡ ok bytes)
    × (length bytes ≡ div_ceil_8 (value_bits narrow))
    × ((other : AddressHash)
        → decode toy_hash narrow other bytes
          ≡ ok (
              if key_tag toy_hash narrow 7 == key_tag toy_hash narrow other
              then found 300
              else not_found))
    × (extract_key_tag {E = ⊥} narrow bytes ≡ ok (key_tag toy_hash narrow 7))
decode-encode_example =
    decode-encode toy_hash narrow 7 300 narrow-IsRepresentable (omega arith) (omega arith)

slot-IsByte : All IsByte slot
slot-IsByte = (omega arith, (omega arith, (omega arith, tt)))

decode-verdict_example : decode toy_hash narrow 7 slot ≡ ok (verdict toy_hash narrow 7 slot)
decode-verdict_example = decode-verdict toy_hash narrow 7 slot narrow-IsRepresentable slot-IsByte
