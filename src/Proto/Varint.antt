-- ===== src/Proto/Varint.antt =====
-- The varint and zigzag primitives of crates/risepir-proto/src/codec.rs. The cursor `(bytes, pos)`
-- of the readers is the list of the bytes from `pos` on.
pub mod Write
pub mod Zigzag
pub mod RoundTrip
use private_eth_getbalance_w.Prelude.{ℕ, zero, suc, ◌+◌, ◌-◌, ◌*◌, ◌/◌, ◌%◌, ◌^◌, ◌<◌, ◌≡◌, arith}
use private_eth_getbalance_w.Prelude.{
  List, [], ◌∷◌, ◌++◌, Outcome, ok, err, bit_and, bit_or, bit_xor,
}
use private_eth_getbalance_w.Prelude.{leb, ltb, ◌==◌, if◌then◌else◌, not, dec_lt, length}
use private_eth_getbalance_w.Prelude.Int.{ℤ, pos, negsuc}
use private_eth_getbalance_w.Prelude.Order.{lt_wf}
use mathlib.Core.Logic.{dite}
use mathlib.Core.WellFounded.{Acc}
use native.Mathlib.Decide.{dec_le}

pub data CodecError : Type 0 where
  bad_magic unexpected_eof malformed_varint : CodecError
  arity_mismatch : ℕ → ℕ → CodecError
  count_exceeds_input index_overflow delta_out_of_range trailing_bytes : CodecError

abbrev pub IsByte : ℕ → Type 0
IsByte b = b < 256

abbrev pub IsU64 : ℕ → Type 0
IsU64 v = v < 2 ^ 64

-- What a reader does with the bytes from the cursor on: a value and the bytes it leaves, or an error.
abbrev pub Read : Type 0 → Type 0
Read A = Outcome CodecError (A × List ℕ)

abbrev shift_shrinks : (value : ℕ) → 0 < value / 2 ^ 7 → value / 2 ^ 7 < value
shift_shrinks value more = omega arith

-- One round of the loop pushes the low seven bits, marked if the shifted value is not 0.
write_uvarint_loop : List ℕ → (value : ℕ) → Acc ◌<◌ value → List ℕ
write_uvarint_loop out value (Acc.intro _ below) =
    let byte = bit_and value 0x7f in
    dite (dec_lt 0 (value / 2 ^ 7))
      (λ more.
        write_uvarint_loop (out ++ (bit_or byte 0x80 ∷ [])) (value / 2 ^ 7)
          (below (value / 2 ^ 7) (shift_shrinks value more)))
      (λ _. out ++ (byte ∷ []))

unfoldable pub write_uvarint : List ℕ → ℕ → List ℕ
unfolding write_uvarint_loop lt_wf dec_lt
write_uvarint out value = write_uvarint_loop out value (lt_wf.apply value)

-- `shift >= 64` is tested before the next byte is fetched. Under it `wrapping_shl` is a plain shift.
unfoldable pub read_uvarint_loop : List ℕ → ℕ → ℕ → Read ℕ
read_uvarint_loop [] result shift =
    if leb 64 shift then err malformed_varint else err unexpected_eof
read_uvarint_loop (byte ∷ rest) result shift =
    let low7 = bit_and byte 0x7f in
    let shifted = low7 * 2 ^ shift % 2 ^ 64 in
    let more = read_uvarint_loop rest (bit_or result shifted) (shift + 7) in
    if leb 64 shift
    then err malformed_varint
    else if not (shifted / 2 ^ shift == low7)
    then err malformed_varint
    else if bit_and byte 0x80 == 0
    then ok (bit_or result shifted, rest)
    else more

unfoldable pub read_uvarint : List ℕ → Read ℕ
unfolding read_uvarint_loop
read_uvarint bytes = read_uvarint_loop bytes 0 0

-- The 64 bits of an `i64`, and the `i64` that 64 bits stand for: the casts `as u64` and `as i64`.
abbrev pub to_bits : ℤ → ℕ
to_bits (pos n) = n
to_bits (negsuc n) = 2 ^ 64 - suc n

abbrev pub of_bits : ℕ → ℤ
of_bits u = if ltb u (2 ^ 63) then pos u else negsuc (2 ^ 64 - u - 1)

-- `v >> 63` on an `i64` repeats the sign bit.
abbrev pub sign_bits : ℤ → ℕ
sign_bits (pos n) = 0
sign_bits (negsuc n) = 2 ^ 64 - 1

unfoldable pub zigzag_encode : ℤ → ℕ
zigzag_encode v = bit_xor (to_bits v * 2 % 2 ^ 64) (sign_bits v)

-- `-((u & 1) as i64)` is 0 or all ones.
unfoldable pub zigzag_decode : ℕ → ℤ
zigzag_decode u = of_bits (bit_xor (u / 2) ((2 ^ 64 - bit_and u 1) % 2 ^ 64))

uvarint_len_loop : (value : ℕ) → ℕ → Acc ◌<◌ value → ℕ
uvarint_len_loop value n (Acc.intro _ below) =
    dite (dec_le 0x80 value)
      (λ more. uvarint_len_loop (value / 2 ^ 7) (n + 1) (below (value / 2 ^ 7) (omega arith)))
      (λ _. n)

unfoldable pub uvarint_len : ℕ → ℕ
unfolding uvarint_len_loop lt_wf dec_le
uvarint_len value = uvarint_len_loop value 1 (lt_wf.apply value)

unfoldable pub check_count : ℕ → ℕ → Outcome CodecError ℕ
check_count count remaining = if ltb remaining count then err count_exceeds_input else ok count
