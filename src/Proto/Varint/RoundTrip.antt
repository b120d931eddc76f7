-- ===== src/Proto/Varint/RoundTrip.antt =====
-- `read_uvarint` against `write_uvarint`, and on any input.
use private_eth_getbalance_w.Prelude.{
  ℕ, ◌+◌, ◌*◌, ◌/◌, ◌%◌, ◌^◌, ◌≤◌, ◌<◌, ◌≡◌, ◌≢◌, ◌⊎◌, refl, ap, ◌∙◌, arith,
}
use private_eth_getbalance_w.Prelude.{
  List, [], ◌∷◌, ◌++◌, ok, err, length, All, dec_lt, bit_and, bit_or,
}
use private_eth_getbalance_w.Prelude.{ltb, if◌then◌else◌}
use private_eth_getbalance_w.Prelude.Bits.{
  bit_and-low, bit_and-top, bit_or_disjoint, pow-pos, lt_of_pow-lt, field_room,
}
use private_eth_getbalance_w.Proto.Varint.{
  write_uvarint, read_uvarint_loop, read_uvarint, IsByte, IsU64,
}
use private_eth_getbalance_w.Proto.Varint.{unexpected_eof, malformed_varint}
use private_eth_getbalance_w.Proto.Varint.Write.{by_groups, write_uvarint_last, write_uvarint_more}
use native.Mathlib.Nat.{div-add-mod, div-mul-le_self}
use native.Mathlib.Numerals.{towards_suc}

-- A group shifted to bit `s` loses nothing while it fits.
group_fits :
    (g s : ℕ) → g * 2 ^ s < 2 ^ 64 → (g * 2 ^ s % 2 ^ 64 ≡ g * 2 ^ s) × (g * 2 ^ s / 2 ^ s ≡ g)
group_fits g s h = (omega arith, grind (arith, pow-pos s))

-- One round of the loop on a last byte, and on a byte that is marked.
read_last :
    (b acc shift : ℕ) (rest : List ℕ)
    → b < 128
    → shift < 64
    → acc < 2 ^ shift
    → IsU64 (acc + b * 2 ^ shift)
    → read_uvarint_loop (b ∷ rest) acc shift ≡ ok (acc + b * 2 ^ shift, rest)
unfolding read_uvarint_loop
read_last b acc shift rest hb hs ha fits =
    ground (arith, bit_and-low b, bit_and-top b, group_fits b shift, bit_or_disjoint shift acc b)

read_inner :
    (g acc shift : ℕ) (rest : List ℕ)
    → g < 128
    → shift < 64
    → acc < 2 ^ shift
    → IsU64 (acc + g * 2 ^ shift)
    → read_uvarint_loop ((g + 128) ∷ rest) acc shift
      ≡ read_uvarint_loop rest (acc + g * 2 ^ shift) (shift + 7)
unfolding read_uvarint_loop
read_inner g acc shift rest hg hs ha fits = ground (
  arith,
  bit_and-low (g + 128),
  bit_and-top (g + 128),
  group_fits g shift,
  bit_or_disjoint shift acc g,
)

shift_seven : (s : ℕ) → 2 ^ (s + 7) ≡ 128 * 2 ^ s
shift_seven s = simp towards_suc (omega arith)

abbrev ReadsBack : ℕ → Type 0
ReadsBack v =
    (acc shift : ℕ) (rest : List ℕ)
    → shift < 64
    → acc < 2 ^ shift
    → IsU64 (acc + v * 2 ^ shift)
    → read_uvarint_loop (write_uvarint [] v ++ rest) acc shift ≡ ok (acc + v * 2 ^ shift, rest)

-- The lowest group of `v` and the others, shifted by `s`.
split_group : (v s : ℕ) → v * 2 ^ s ≡ v % 128 * 2 ^ s + v / 128 * 2 ^ (s + 7)
split_group v s = omega (
  arith,
  ap (λ (t : ℕ). t * 2 ^ s) (div-add-mod v 128),
  ap (λ (t : ℕ). v / 128 * t) (shift_seven s),
)

later_shift : (v s : ℕ) → 128 ≤ v → v * 2 ^ s < 2 ^ 64 → s + 7 < 64
later_shift v s h fits = lt_of_pow-lt (s + 7) 64 (rw shift_seven (grind (arith, pow-pos s)))

-- What was read so far stays below the next shift.
group_below : (g acc s : ℕ) → g < 128 → acc < 2 ^ s → acc + g * 2 ^ s < 2 ^ (s + 7)
group_below g acc s hg ha = rw shift_seven (grind arith)

read_more : (v : ℕ) → 128 ≤ v → ReadsBack (v / 128) → ReadsBack v
read_more v h ih acc shift rest hs ha fits =
    let below : v % 128 < 128 = omega arith in
    let whole : v * 2 ^ shift ≡ v % 128 * 2 ^ shift + v / 128 * 2 ^ (shift + 7) =
      split_group v shift in
    rw
      (
        write_uvarint_more v h,
        read_inner (v % 128) acc shift (write_uvarint [] (v / 128) ++ rest) below hs ha
            (omega arith),
        ih (acc + v % 128 * 2 ^ shift) (shift + 7) rest (later_shift v shift h (omega arith))
            (group_below (v % 128) acc shift below ha) (omega arith),
      )
      (ap (λ (t : ℕ). ok (t, rest)) (omega arith))

read_back : (v : ℕ) → ReadsBack v
read_back =
    by_groups ReadsBack
      (λ v p acc shift rest hs ha fits.
        rw (write_uvarint_last v p) (read_last v acc shift rest p hs ha fits))
      read_more

-- `read_uvarint` reads back the u64 that `write_uvarint` wrote, and leaves whatever follows it.
pub read_uvarint-write_uvarint :
    (v : ℕ) (rest : List ℕ) → IsU64 v → read_uvarint (write_uvarint [] v ++ rest) ≡ ok (v, rest)
unfolding read_uvarint
read_uvarint-write_uvarint v rest h =
    read_back v 0 0 rest (omega arith) (omega arith) (omega arith)
    ∙ ap (λ (t : ℕ). ok (t, rest)) (omega arith)

group_lost : (g s : ℕ) → 2 ^ 64 ≤ g * 2 ^ s → g * 2 ^ s % 2 ^ 64 / 2 ^ s ≢ g
group_lost g s h e = grind (arith, pow-pos s, div-mul-le_self (g * 2 ^ s % 2 ^ 64) (2 ^ s))

-- One round on any byte, in plain arithmetic.
read_round :
    (b result shift : ℕ) (bs : List ℕ)
    → b < 256
    → shift < 64
    → result < 2 ^ shift
    → read_uvarint_loop (b ∷ bs) result shift ≡ (
        if ltb (b % 128 * 2 ^ shift) (2 ^ 64)
        then (if ltb b 128
            then ok (result + b % 128 * 2 ^ shift, bs)
            else read_uvarint_loop bs (result + b % 128 * 2 ^ shift) (shift + 7))
        else err malformed_varint)
unfolding read_uvarint_loop
read_round b result shift bs hb hs hr = elim (dec_lt (b % 128 * 2 ^ shift) (2 ^ 64)) [
  | yes p ↦ ground (
    arith,
    bit_and-low b,
    bit_and-top b,
    group_fits (b % 128) shift,
    bit_or_disjoint shift result (b % 128),
  )
  | no p ↦ ground (arith, bit_and-low b, group_lost (b % 128) shift)
]

read_late :
    (bytes : List ℕ) (result shift : ℕ)
    → 64 ≤ shift
    → read_uvarint_loop bytes result shift ≡ err malformed_varint
unfolding read_uvarint_loop
read_late [] result shift h = ground arith
read_late (b ∷ bs) result shift h = ground arith

-- On bytes the loop keeps what it has below the shift, so it never overflows; after `j` bytes the
-- shift is `7 * j`, and it stops at 64.
read_loop_takes :
    (bytes : List ℕ) (result shift j v : ℕ) (rest : List ℕ)
    → All IsByte bytes
    → shift ≡ 7 * j
    → j ≤ 10
    → result < 2 ^ shift
    → read_uvarint_loop bytes result shift ≡ ok (v, rest)
    → IsU64 v
      × (length rest < length bytes)
      × (length bytes + j ≤ length rest + 10)
      × All IsByte rest
read_loop_takes [] result shift j v rest hb hs hj hr e = unfold read_uvarint_loop in ground arith
read_loop_takes (b ∷ bs) result shift j v rest hb hs hj hr e = elim (dec_lt shift 64) [
  | no p ↦ absurd (cc (read_late (b ∷ bs) result shift (omega arith)))
  | yes p ↦ ground (
    arith,
    read_round b result shift bs hb.0 p hr,
    field_room (b % 128) shift result p hr,
    group_below (b % 128) result shift (omega arith) hr,
    read_loop_takes bs (result + b % 128 * 2 ^ shift) (shift + 7) (j + 1) v rest hb.1 (omega arith),
  )
]

-- On any bytes, a value that `read_uvarint` returns is a u64, it took 1 to 10 of the bytes, and
-- what it left are bytes.
read_uvarint_takes :
    (bytes : List ℕ) (v : ℕ) (rest : List ℕ)
    → All IsByte bytes
    → read_uvarint bytes ≡ ok (v, rest)
    → IsU64 v × (length rest < length bytes) × (length bytes ≤ length rest + 10) × All IsByte rest
unfolding read_uvarint
read_uvarint_takes bytes v rest hb e =
    let (u, less, most, tail) =
      read_loop_takes bytes 0 0 0 v rest hb refl (omega arith) (omega arith) e in
    (u, less, omega arith, tail)

abbrev IsMarked : ℕ → Type 0
IsMarked b = (128 ≤ b) × (b < 256)

read_loop_marked :
    (front more : List ℕ) (result shift j : ℕ)
    → All IsMarked front
    → shift ≡ 7 * j
    → 10 ≤ length front + j
    → result < 2 ^ shift
    → read_uvarint_loop (front ++ more) result shift ≡ err malformed_varint
read_loop_marked [] more result shift j hm hs hl hr = read_late more result shift (omega arith)
read_loop_marked (b ∷ bs) more result shift j hm hs hl hr = elim (dec_lt shift 64) [
  | no p ↦ read_late (b ∷ (bs ++ more)) result shift (omega arith)
  | yes p ↦ ground (
    arith,
    read_round b result shift (bs ++ more) hm.0.1 p hr,
    group_below (b % 128) result shift (omega arith) hr,
    read_loop_marked bs more (result + b % 128 * 2 ^ shift) (shift + 7) (j + 1) hm.1 (omega arith),
  )
]

-- An encoding longer than 10 bytes is malformed, whatever follows its first ten marked bytes.
read_uvarint_overlong :
    (front more : List ℕ)
    → All IsMarked front
    → length front ≡ 10
    → read_uvarint (front ++ more) ≡ err malformed_varint
unfolding read_uvarint
read_uvarint_overlong front more hm hl =
    read_loop_marked front more 0 0 0 hm refl (omega arith) (omega arith)

read_loop_cases :
    (bytes : List ℕ) (result shift : ℕ)
    → ((p : ℕ × List ℕ) × (read_uvarint_loop bytes result shift ≡ ok p))
      ⊎ (read_uvarint_loop bytes result shift ≡ err unexpected_eof)
      ⊎ (read_uvarint_loop bytes result shift ≡ err malformed_varint)
unfolding read_uvarint_loop
read_loop_cases [] result shift = ground arith
read_loop_cases (b ∷ bs) result shift =
    ground
      (arith, read_loop_cases bs (bit_or result (bit_and b 0x7f * 2 ^ shift % 2 ^ 64)) (shift + 7))

-- `read_uvarint` is total: a value, or one of two errors, and never a panic.
pub read_uvarint_cases :
    (bytes : List ℕ)
    → ((p : ℕ × List ℕ) × (read_uvarint bytes ≡ ok p))
      ⊎ (read_uvarint bytes ≡ err unexpected_eof)
      ⊎ (read_uvarint bytes ≡ err malformed_varint)
unfolding read_uvarint
read_uvarint_cases bytes = read_loop_cases bytes 0 0
