-- ===== src/Proto/Value/RoundTrip.antt =====
-- An encoded value decodes to its balance, for its address only.
use private_eth_getbalance_w.Prelude.{
  ℕ, zero, suc, ◌+◌, ◌-◌, ◌*◌, ◌^◌, ◌<◌, ◌≤◌, ◌≡◌, refl, sym, ◌∙◌, ap, arith, List, [], ◌∷◌, ◌++◌,
  Bool, true, false, not, inl, inr, Bool-cases,
}
use private_eth_getbalance_w.Prelude.{
  Outcome, ok, if◌then◌else◌, length, replicate, length-replicate, length-append, All, ◌==◌,
}
use private_eth_getbalance_w.Prelude.Bits.{pow-pos, pow_mono}
use private_eth_getbalance_w.Proto.Varint.{IsByte}
use private_eth_getbalance_w.Proto.Delta.{AddressHash, Balance}
use private_eth_getbalance_w.Proto.Value.{
  ValueError, Lookup, found, not_found, decode_failed, ValueCodec, key_tag_seed, div_ceil_8,
  value_bits, fits_balance_bits, read_bits, key_tag, encode, decode, extract_key_tag,
}
use private_eth_getbalance_w.Proto.Value.Bits.{bits_of}
use private_eth_getbalance_w.Proto.Value.Fields.{
  digits, number, length-digits, number-digits, Holds, write_bits-digits, read_bits-number,
}
use private_eth_getbalance_w.Proto.Value.Decode.{
  IsRepresentable, check_widths-Ok, sum_of, checksum-sum_of, sum_of_bound, masked, Packed,
  decode-Packed, fields_fit,
}
use private_eth_getbalance_w.Proto.Value.Total.{ceil_room, judge-Lookup}
use native.Mathlib.Nat.{suc-add}
use mathlib.Core.List.{append_assoc}

abbrev zeros : ℕ → List ℕ
zeros n = replicate n 0

zeros_add : (m n : ℕ) → zeros (m + n) ≡ zeros m ++ zeros n
zeros_add zero n = ap (λ k. zeros k) (omega arith)
zeros_add (suc m) n = rw suc-add (ap (◌∷◌ 0) (zeros_add m n))

eight_more : (n : ℕ) → suc (suc (suc (suc (suc (suc (suc (suc (8 * n)))))))) ≡ 8 * suc n
eight_more n = omega arith

bits_of-zeros : (n : ℕ) → bits_of (zeros n) ≡ zeros (8 * n)
bits_of-zeros zero = refl
bits_of-zeros (suc n) =
    ap (λ l. 0 ∷ 0 ∷ 0 ∷ 0 ∷ 0 ∷ 0 ∷ 0 ∷ 0 ∷ l) (bits_of-zeros n) ∙ ap zeros (eight_more n)

zeros-IsByte : (n : ℕ) → All IsByte (zeros n)
zeros-IsByte zero = tt
zeros-IsByte (suc n) = (omega arith, zeros-IsByte n)

blank :
    (t b k m : ℕ)
    → t + b + k ≤ 8 * m
    → bits_of (zeros m) ≡ zeros t ++ (zeros b ++ (zeros k ++ zeros (8 * m - (t + b + k))))
blank t b k m h =
    let pad : ℕ = 8 * m - (t + b + k) in
    let whole : 8 * m ≡ t + (b + (k + pad)) = omega arith in
    bits_of-zeros m
    ∙ ap zeros whole
    ∙ zeros_add t (b + (k + pad))
    ∙ ap (zeros t ++◌) (zeros_add b (k + pad) ∙ ap (zeros b ++◌) (zeros_add k pad))

fits :
    (c : ValueCodec) (balance : Balance)
    → balance < 2 ^ c.balance_bits
    → fits_balance_bits c balance ≡ true
unfolding fits_balance_bits
fits c balance h = ground arith

same : (n : ℕ) → (n == n) ≡ true
same n = ground arith

verdicts :
    (balance : Balance) (own : Bool)
    → ◌≡◌ {A = Outcome ⊥ Lookup}
        (ok (if not own then not_found else if not true then decode_failed else found balance))
        (ok (if own then found balance else not_found))
verdicts balance true = refl
verdicts balance false = refl

module _ (xxh3_64_with_seed : AddressHash → ℕ → ℕ) where
  pub key_tag_bound :
      (c : ValueCodec) (addr : AddressHash)
      → c.key_tag_bits ≤ 64
      → xxh3_64_with_seed addr key_tag_seed < 2 ^ 64
      → key_tag xxh3_64_with_seed c addr < 2 ^ c.key_tag_bits
  unfolding key_tag
  key_tag_bound c addr h hash = elim (Bool-cases (c.key_tag_bits == 0)) [
    | inl none ↦ rw none (pow-pos c.key_tag_bits)
    | inr some ↦ rw some (masked (xxh3_64_with_seed addr key_tag_seed) c.key_tag_bits hash h)
  ]

  -- The buffer after the three writes.
  pub encode-Packed :
      (c : ValueCodec) (addr : AddressHash) (balance : Balance)
      → IsRepresentable c
      → balance < 2 ^ c.balance_bits
      → (bytes : List ℕ) × (encode xxh3_64_with_seed c addr balance ≡ ok bytes)
        × (length bytes ≡ div_ceil_8 (value_bits c))
        × ((padding : List ℕ) × Packed c bytes
              (digits c.key_tag_bits (key_tag xxh3_64_with_seed c addr))
              (digits c.balance_bits balance)
              (digits c.checksum_bits (sum_of c balance))
              padding)
  unfolding encode
  encode-Packed c addr balance w h =
      let size : ℕ = div_ceil_8 (value_bits c) in
      let buf : List ℕ = zeros size in
      let pad : ℕ = 8 * size - (c.key_tag_bits + c.balance_bits + c.checksum_bits) in
      let t = digits c.key_tag_bits (key_tag xxh3_64_with_seed c addr) in
      let b = digits c.balance_bits balance in
      let room : c.key_tag_bits + c.balance_bits + c.checksum_bits ≤ 8 * size =
        omega (arith, ceil_room (value_bits c) size refl, fields_fit c w) in
      let clear : Holds buf [] (zeros c.key_tag_bits)
          (zeros c.balance_bits ++ (zeros c.checksum_bits ++ zeros pad)) =
        record {
          bits = blank c.key_tag_bits c.balance_bits c.checksum_bits size room;
          bytes = zeros-IsByte size;
        } in
      let (buf1, e1, h1, l1) =
        write_bits-digits {E = ValueError} c.key_tag_bits (key_tag xxh3_64_with_seed c addr) buf []
          _ (omega (arith, w.tag)) clear in
      let (buf2, e2, h2, l2) =
        write_bits-digits {E = ValueError} c.balance_bits balance buf1 t
          (zeros c.checksum_bits ++ zeros pad) w.balance
          (record { bits = h1.bits; bytes = h1.bytes }) in
      let (buf3, e3, h3, l3) =
        write_bits-digits {E = ValueError} c.checksum_bits (sum_of c balance) buf2 (t ++ b)
          (zeros pad) (omega (arith, w.sum))
          (record { bits = h2.bits ∙ sym (append_assoc t b _); bytes = h2.bytes }) in
      let at2 : length t ≡ c.key_tag_bits = length-digits c.key_tag_bits _ in
      let at3 : length (t ++ b) ≡ c.key_tag_bits + c.balance_bits =
        omega (arith, length-append t b, at2, length-digits c.balance_bits balance) in
      (
        buf3,
        rw
            (
              check_widths-Ok c w,
              fits c balance h,
              e1,
              rw at2 at e2,
              checksum-sum_of {E = ValueError} c balance w.balance,
              rw at3 at e3,
            )
            refl,
        l3 ∙ l2 ∙ l1 ∙ length-replicate size 0,
        (
          zeros pad,
          record {
            bits = h3.bits ∙ append_assoc t b _;
            all = h3.bytes;
            tag_len = length-digits c.key_tag_bits _;
            balance_len = length-digits c.balance_bits balance;
            sum_len = length-digits c.checksum_bits _;
          },
        ),
      )

  own_tag :
      (c : ValueCodec) (addr : AddressHash)
      → c.key_tag_bits ≤ 64
      → xxh3_64_with_seed addr key_tag_seed < 2 ^ 64
      → number (digits c.key_tag_bits (key_tag xxh3_64_with_seed c addr))
        ≡ key_tag xxh3_64_with_seed c addr
  own_tag c addr h hash = number-digits c.key_tag_bits _ (key_tag_bound c addr h hash)

  -- An encoded slot decodes, for every address, to the encoded balance if the address has the
  -- encoded one's tag, and to "not found" if it has not, and its tag can be extracted: where the
  -- widths are representable, the balance fits its field, and the hash is a u64.
  pub decode-encode :
      (c : ValueCodec) (addr : AddressHash) (balance : Balance)
      → IsRepresentable c
      → balance < 2 ^ c.balance_bits
      → xxh3_64_with_seed addr key_tag_seed < 2 ^ 64
      → (bytes : List ℕ) × (encode xxh3_64_with_seed c addr balance ≡ ok bytes)
        × (length bytes ≡ div_ceil_8 (value_bits c))
        × ((other : AddressHash)
            → decode xxh3_64_with_seed c other bytes
              ≡ ok (
                  if key_tag xxh3_64_with_seed c addr == key_tag xxh3_64_with_seed c other
                  then found balance
                  else not_found))
        × (extract_key_tag {E = ⊥} c bytes ≡ ok (key_tag xxh3_64_with_seed c addr))
  unfolding extract_key_tag
  decode-encode c addr balance w h hash =
      let (bytes, enc, size, (padding, p)) = encode-Packed c addr balance w h in
      let extracted : read_bits {E = ⊥} bytes 0 c.key_tag_bits
          ≡ ok (number (digits c.key_tag_bits (key_tag xxh3_64_with_seed c addr))) =
        read_bits-number c.key_tag_bits bytes [] _ _ p.tag_len (omega (arith, w.tag))
          (record { bits = p.bits; bytes = p.all }) in
      (
        bytes,
        enc,
        size,
        λ other.
            rw
              (
                decode-Packed xxh3_64_with_seed c other bytes _ _ _ padding w size p,
                own_tag c addr w.tag hash,
                number-digits c.balance_bits balance h,
                number-digits c.checksum_bits (sum_of c balance) (sum_of_bound c balance w.sum),
                judge-Lookup xxh3_64_with_seed c other (key_tag xxh3_64_with_seed c addr) balance
                    (sum_of c balance) w,
                same (sum_of c balance),
              )
              (verdicts balance
                (key_tag xxh3_64_with_seed c addr == key_tag xxh3_64_with_seed c other)),
        rw (extracted, own_tag c addr w.tag hash)
            (ap ok
              (omega (arith, key_tag_bound c addr w.tag hash, pow_mono c.key_tag_bits 64 w.tag))),
      )
