-- ===== src/Proto/Varint/Write.antt =====
-- What `write_uvarint` appends, as a recursion on the groups of seven bits, and `uvarint_len`.
use private_eth_getbalance_w.Prelude.{ℕ, ◌+◌, ◌/◌, ◌%◌, ◌^◌, ◌≤◌, ◌<◌, ◌≡◌, ap, ◌∙◌, arith}
use private_eth_getbalance_w.Prelude.{List, [], ◌∷◌, ◌++◌, dec_lt, length, All}
use private_eth_getbalance_w.Prelude.{bit_and, bit_or}
use private_eth_getbalance_w.Prelude.Bits.{bit_and-low, bit_or-top}
use private_eth_getbalance_w.Prelude.Order.{lt_wf}
use private_eth_getbalance_w.Proto.Varint.{
  write_uvarint_loop, write_uvarint, uvarint_len_loop, uvarint_len, shift_shrinks, IsByte,
}
use mathlib.Core.List.{append_assoc}
use mathlib.Core.Logic.{dif_pos, dif_neg}
use native.Mathlib.Decide.{dec_le}
use mathlib.Core.WellFounded
use native.Mathlib.Bridge.{le_prop}
use mathlib.Core.WellFounded.{Acc, Acc-prop}

low_group : (v : ℕ) → bit_and v 0x7f ≡ v % 128
low_group v = bit_and-low v

inner_group : (v : ℕ) → bit_or (bit_and v 0x7f) 0x80 ≡ v % 128 + 128
inner_group v = rw bit_and-low (bit_or-top (v % 128) (omega arith))

loop_last :
    (out : List ℕ) (value : ℕ) (w : Acc ◌<◌ value)
    → value < 128
    → write_uvarint_loop out value w ≡ out ++ (value ∷ [])
unfolding write_uvarint_loop
loop_last out value (Acc.intro _ below) h = ground (arith, low_group value)

loop_more :
    (out : List ℕ) (value : ℕ) (w : Acc ◌<◌ value) (w' : Acc ◌<◌ (value / 128))
    → 128 ≤ value
    → write_uvarint_loop out value w
      ≡ write_uvarint_loop (out ++ ((value % 128 + 128) ∷ [])) (value / 128) w'
unfolding write_uvarint_loop
loop_more out value (Acc.intro _ below) w' h =
    let more : 0 < value / 2 ^ 7 = omega arith in
    rw (dif_pos _ le_prop more, inner_group)
      (ap (write_uvarint_loop (out ++ ((value % 128 + 128) ∷ [])) (value / 128))
        (Acc-prop (below (value / 2 ^ 7) (shift_shrinks value more)) w'))

write_last :
    (out : List ℕ) (value : ℕ) → value < 128 → write_uvarint out value ≡ out ++ (value ∷ [])
unfolding write_uvarint
write_last out value h = loop_last out value (lt_wf.apply value) h

write_more :
    (out : List ℕ) (value : ℕ)
    → 128 ≤ value
    → write_uvarint out value ≡ write_uvarint (out ++ ((value % 128 + 128) ∷ [])) (value / 128)
unfolding write_uvarint
write_more out value h = loop_more out value (lt_wf.apply value) (lt_wf.apply (value / 128)) h

-- Induction over the groups of seven bits.
pub by_groups {ℓ} :
    (P : ℕ → Type ℓ)
    → ((v : ℕ) → v < 128 → P v)
    → ((v : ℕ) → 128 ≤ v → P (v / 128) → P v)
    → (v : ℕ) → P v
by_groups P last more v = WellFounded.induction lt_wf {C = P} v (λ n ih. elim (dec_lt n 128) [
  | yes p ↦ last n p
  | no p ↦ more n (omega arith) (ih (n / 128) (omega arith))
])

-- The code appends to `out` the encoding that it would write to an empty vector.
pub write_uvarint-append :
    (value : ℕ) (out : List ℕ) → write_uvarint out value ≡ out ++ write_uvarint [] value
write_uvarint-append = by_groups _ (λ v p out. rw (write_last out v p, write_last [] v p)) more
  where
    more :
        (v : ℕ)
        → 128 ≤ v
        → ((out : List ℕ) → write_uvarint out (v / 128) ≡ out ++ write_uvarint [] (v / 128))
        → (out : List ℕ) → write_uvarint out v ≡ out ++ write_uvarint [] v
    more v p ih out = rw (
      write_more out v p,
      write_more [] v p,
      ih (out ++ ((v % 128 + 128) ∷ [])),
      ih ((v % 128 + 128) ∷ []),
      append_assoc out,
    )

-- The encoding of a number of one group, and of a longer one.
pub write_uvarint_last : (value : ℕ) → value < 128 → write_uvarint [] value ≡ value ∷ []
write_uvarint_last value h = write_last [] value h

pub write_uvarint_more :
    (value : ℕ)
    → 128 ≤ value
    → write_uvarint [] value ≡ (value % 128 + 128) ∷ write_uvarint [] (value / 128)
write_uvarint_more value h =
    write_more [] value h ∙ write_uvarint-append (value / 128) ((value % 128 + 128) ∷ [])

pub write_uvarint-IsByte : (value : ℕ) → All IsByte (write_uvarint [] value)
write_uvarint-IsByte =
    by_groups _ (λ v p. rw (write_uvarint_last v p) (omega arith, tt))
      (λ v p ih. rw (write_uvarint_more v p) (omega arith, ih))

pub length-write_uvarint : (value : ℕ) → 1 ≤ length (write_uvarint [] value)
length-write_uvarint =
    by_groups _ (λ v p. rw (write_uvarint_last v p) (omega arith))
      (λ v p ih. rw (write_uvarint_more v p) (omega arith))

len_loop_lem :
    (value : ℕ) (n : ℕ) (w : Acc ◌<◌ value)
    → uvarint_len_loop value n w + 1 ≡ n + length (write_uvarint [] value)
unfolding uvarint_len_loop
len_loop_lem value n (Acc.intro _ below) = elim (dec_le 0x80 value) [
  | yes p ↦
      rw (dif_pos _ le_prop p, write_uvarint_more value p)
        (omega (arith, len_loop_lem (value / 2 ^ 7) (n + 1) (below (value / 2 ^ 7) (omega arith))))
  | no p ↦ rw (dif_neg _ p, write_uvarint_last value (omega arith)) (omega arith)
]

-- `uvarint_len` is the length of what `write_uvarint` appends.
pub uvarint_len-write_uvarint : (value : ℕ) → uvarint_len value ≡ length (write_uvarint [] value)
unfolding uvarint_len
uvarint_len-write_uvarint value = omega (arith, len_loop_lem value 1 (lt_wf.apply value))
