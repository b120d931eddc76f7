-- ===== src/Proto/Value/Total.antt =====
-- The value codec's `decode` is total: its verdict on every slot, read off three bit fields.
use private_eth_getbalance_w.Prelude.{
  ℕ, zero, suc, ◌+◌, ◌*◌, ◌%◌, ◌^◌, ◌≤◌, ◌≡◌, refl, sym, ◌∙◌, ap, arith, List, [], ◌∷◌, ◌++◌, not,
  inl, inr, Bool-cases,
}
use private_eth_getbalance_w.Prelude.{
  ok, if◌then◌else◌, length, take, drop, take-append-drop, length-take, length-drop, All, ◌==◌,
}
use native.Mathlib.Nat.{suc-add}
use private_eth_getbalance_w.Proto.Varint.{IsByte}
use private_eth_getbalance_w.Proto.Delta.{AddressHash}
use private_eth_getbalance_w.Proto.Value.{
  read_bits, extract_key_tag, Lookup, found, not_found, decode_failed, ValueCodec, div_ceil_8,
  value_bits, key_tag, judge, decode,
}
use private_eth_getbalance_w.Proto.Value.Bits.{bits_of, length-bits_of}
use private_eth_getbalance_w.Proto.Value.Fields.{read_bits-number, number}
use private_eth_getbalance_w.Proto.Value.Decode.{
  IsRepresentable, check_widths-Ok, sum_of, checksum-sum_of, Packed, decode-Packed, fields_fit,
}

-- The number that the `n` bits from bit `p` on stand for.
abbrev pub field : ℕ → ℕ → List ℕ → ℕ
field p n bytes = number (take n (drop p (bits_of bytes)))

drop-drop : (p n : ℕ) (xs : List ℕ) → drop n (drop p xs) ≡ drop (p + n) xs
drop-drop zero n xs = ap (λ k. drop k xs) (omega arith)
drop-drop (suc p) zero [] = rw suc-add refl
drop-drop (suc p) (suc n) [] = rw suc-add refl
drop-drop (suc p) n (x ∷ xs) = rw suc-add (drop-drop p n xs)

pub ceil_room : (n m : ℕ) → m ≡ div_ceil_8 n → n ≤ 8 * m
ceil_room n m h = ground arith

split :
    (c : ValueCodec) (bytes : List ℕ)
    → IsRepresentable c
    → All IsByte bytes
    → length bytes ≡ div_ceil_8 (value_bits c)
    → Packed c bytes
        (take c.key_tag_bits (bits_of bytes))
        (take c.balance_bits (drop c.key_tag_bits (bits_of bytes)))
        (take c.checksum_bits (drop (c.key_tag_bits + c.balance_bits) (bits_of bytes)))
        (drop c.checksum_bits (drop (c.key_tag_bits + c.balance_bits) (bits_of bytes)))
split c bytes w a size =
    let bits : List ℕ = bits_of bytes in
    let room : c.key_tag_bits + c.balance_bits + c.checksum_bits ≤ length bits =
      omega (
        arith,
        ceil_room (value_bits c) (length bytes) size,
        fields_fit c w,
        length-bits_of bytes,
      ) in
    let d1 = length-drop c.key_tag_bits bits in
    let d2 = length-drop (c.key_tag_bits + c.balance_bits) bits in
    record {
      bits = sym (
          ap
            (λ l. take c.key_tag_bits bits ++ (take c.balance_bits (drop c.key_tag_bits bits) ++ l))
            (take-append-drop c.checksum_bits (drop (c.key_tag_bits + c.balance_bits) bits))
          ∙ ap
              (λ l.
                take c.key_tag_bits bits ++ (take c.balance_bits (drop c.key_tag_bits bits) ++ l))
              (sym (drop-drop c.key_tag_bits c.balance_bits bits))
          ∙ ap (take c.key_tag_bits bits ++◌)
              (take-append-drop c.balance_bits (drop c.key_tag_bits bits))
          ∙ take-append-drop c.key_tag_bits bits);
      all = a;
      tag_len = omega (arith, length-take c.key_tag_bits bits);
      balance_len = omega (arith, length-take c.balance_bits (drop c.key_tag_bits bits));
      sum_len =
          omega (arith, length-take c.checksum_bits (drop (c.key_tag_bits + c.balance_bits) bits));
    }

-- Bytes of the codec's size.
pub record IsSlot (c : ValueCodec) (bytes : List ℕ) : Type 0 where
  pub all : All IsByte bytes
  pub size : length bytes ≡ div_ceil_8 (value_bits c)

pub extract_key_tag-field :
    {E : Type 0} (c : ValueCodec) (bytes : List ℕ)
    → IsRepresentable c
    → IsSlot c bytes
    → extract_key_tag {E = E} c bytes ≡ ok (field 0 c.key_tag_bits bytes % 2 ^ 64)
unfolding extract_key_tag
extract_key_tag-field {E = E} c bytes w b =
    let p = split c bytes w b.all b.size in
    let read : read_bits {E = E} bytes 0 c.key_tag_bits ≡ ok (field 0 c.key_tag_bits bytes) =
      read_bits-number c.key_tag_bits bytes [] _ _ p.tag_len (omega (arith, w.tag))
        (record { bits = p.bits; bytes = p.all }) in
    rw read refl

module _ (xxh3_64_with_seed : AddressHash → ℕ → ℕ) where
  -- The verdict on a slot's bytes, from the numbers in its fields.
  abbrev pub verdict : ValueCodec → AddressHash → List ℕ → Lookup
  verdict c addr bytes =
      let balance = field c.key_tag_bits c.balance_bits bytes in
      if not (length bytes == div_ceil_8 (value_bits c))
      then decode_failed
      else if not (field 0 c.key_tag_bits bytes == key_tag xxh3_64_with_seed c addr)
      then not_found
      else if not
          (field (c.key_tag_bits + c.balance_bits) c.checksum_bits bytes == sum_of c balance)
      then decode_failed
      else found balance

  pub judge-Lookup :
      (c : ValueCodec) (addr : AddressHash) (tag balance sum : ℕ)
      → IsRepresentable c
      → judge xxh3_64_with_seed {E = ⊥} c addr tag balance sum
        ≡ ok (
            if not (tag == key_tag xxh3_64_with_seed c addr)
            then not_found
            else if not (sum == sum_of c balance)
            then decode_failed
            else found balance)
  unfolding judge
  judge-Lookup c addr tag balance sum w =
      elim (Bool-cases (tag == key_tag xxh3_64_with_seed c addr)) [
        | inr other ↦ rw other refl
        | inl own ↦ elim (Bool-cases (sum == sum_of c balance)) [
          | inl good ↦ rw (own, checksum-sum_of {E = ⊥} c balance w.balance, good) refl
          | inr bad ↦ rw (own, checksum-sum_of {E = ⊥} c balance w.balance, bad) refl
        ]
      ]

  -- On any bytes, for any address, a codec of representable widths decodes without a panic: to the
  -- verdict, which reads the numbers in the three bit fields.
  pub decode-verdict :
      (c : ValueCodec) (addr : AddressHash) (bytes : List ℕ)
      → IsRepresentable c
      → All IsByte bytes
      → decode xxh3_64_with_seed c addr bytes ≡ ok (verdict c addr bytes)
  unfolding decode
  decode-verdict c addr bytes w a = elim (Bool-cases (length bytes == div_ceil_8 (value_bits c))) [
    | inl size ↦
        let tag : ℕ = field 0 c.key_tag_bits bytes in
        let balance : ℕ = field c.key_tag_bits c.balance_bits bytes in
        let sum : ℕ = field (c.key_tag_bits + c.balance_bits) c.checksum_bits bytes in
        let equal : length bytes ≡ div_ceil_8 (value_bits c) = ground arith in
        decode-Packed xxh3_64_with_seed c addr bytes _ _ _ _ w equal (split c bytes w a equal)
        ∙ judge-Lookup c addr tag balance sum w
        ∙ sym (rw size refl)
    | inr wrong ↦ rw (check_widths-Ok c w, wrong) refl
  ]
