-- ===== src/Client/Query/Mask.antt =====
-- The masks of the selection: all ones on equal numbers, 0 on others.
use native.Mathlib.Nat.{pow-suc}
use Prim.Native.Nat.{differ, bit_and-bitwise, bit_or-bitwise}
use private_eth_getbalance_w.Prelude.{
  ℕ, zero, suc, ◌-◌, ◌/◌, ◌%◌, ◌^◌, ◌≤◌, ◌<◌, ◌≡◌, ◌≢◌, refl, arith, bit_and, bit_or, bit_xor, ◌==◌,
  ==_iff, true, ◌⊎◌, inl, inr, ℕ_discrete,
}
use private_eth_getbalance_w.Prelude.Bits.{bit_or_step, bit_xor_step, holds_below, holds_below→true}
use private_eth_getbalance_w.Client.Query.{ct_eq_u64_mask}

bit_or_bounds :
    (k a b : ℕ) → a < 2 ^ k → b < 2 ^ k → (a ≤ bit_or a b) × (b ≤ bit_or a b) × (bit_or a b < 2 ^ k)
bit_or_bounds zero a b h j =
    let p : a ≡ 0 = omega arith in
    let q : b ≡ 0 = omega arith in rw (p, q) (omega arith, omega arith, omega arith)
bit_or_bounds (suc k) a b h j =
    let (p, q, r) =
      bit_or_bounds k (a / 2) (b / 2) (omega (arith, pow-suc 2 k)) (omega (arith, pow-suc 2 k)) in
    (
      omega (arith, bit_or_step a b, p),
      omega (arith, bit_or_step a b, q),
      omega (arith, bit_or_step a b, r, pow-suc 2 k),
    )

differ_bits :
    (a b : ℕ) → a < 2 → b < 2 → (differ a b < 2) × (differ a b ≡ 0 → a ≡ b) × (differ a a ≡ 0)
differ_bits zero zero h j = (omega arith, (λ e. refl), refl)
differ_bits zero (suc zero) h j = (omega arith, (λ e. cc e), refl)
differ_bits (suc zero) zero h j = (omega arith, (λ e. cc e), refl)
differ_bits (suc zero) (suc zero) h j = (omega arith, (λ e. refl), refl)
differ_bits zero (suc (suc b)) h j = absurd (omega (arith, j))
differ_bits (suc zero) (suc (suc b)) h j = absurd (omega (arith, j))
differ_bits (suc (suc a)) b h j = absurd (omega (arith, h))

bit_xor_facts :
    (k a b : ℕ)
    → a < 2 ^ k
    → b < 2 ^ k
    → (bit_xor a b < 2 ^ k) × (bit_xor a b ≡ 0 → a ≡ b) × (bit_xor a a ≡ 0)
bit_xor_facts zero a b h j =
    let p : a ≡ 0 = omega arith in
    let q : b ≡ 0 = omega arith in rw (p, q) (omega arith, (λ e. refl), refl)
bit_xor_facts (suc k) a b h j =
    let (p, q, r) =
      bit_xor_facts k (a / 2) (b / 2) (omega (arith, pow-suc 2 k)) (omega (arith, pow-suc 2 k)) in
    let (u, v, w) = differ_bits (a % 2) (b % 2) (omega arith) (omega arith) in
    (
      omega (arith, bit_xor_step a b, p, u, pow-suc 2 k),
      (λ e.
          let halves : a / 2 ≡ b / 2 = q (omega (arith, bit_xor_step a b, e)) in
          let digits : a % 2 ≡ b % 2 = v (omega (arith, bit_xor_step a b, e)) in
          omega (arith, halves, digits)),
      omega (arith, bit_xor_step a a, r, w),
    )

abbrev pub ones : ℕ
ones = 2 ^ 64 - 1

nonzero : (n : ℕ) → n ≢ 0 → 0 < n
nonzero zero h = absurd (h refl)
nonzero (suc n) h = omega arith

spread : (x : ℕ) → 0 < x → x < 2 ^ 64 → bit_or x ((2 ^ 64 - x) % 2 ^ 64) / 2 ^ 63 ≡ 1
spread x h j =
    let (p, q, r) = bit_or_bounds 64 x ((2 ^ 64 - x) % 2 ^ 64) j (omega arith) in
    omega (arith, p, q, r)

pub ct_eq_u64_mask_same : (a : ℕ) → a < 2 ^ 64 → ct_eq_u64_mask a a ≡ ones
unfolding ct_eq_u64_mask
ct_eq_u64_mask_same a h = let (p, q, r) = bit_xor_facts 64 a a h h in rw r refl

pub ct_eq_u64_mask_other : (a b : ℕ) → a < 2 ^ 64 → b < 2 ^ 64 → a ≢ b → ct_eq_u64_mask a b ≡ 0
unfolding ct_eq_u64_mask
ct_eq_u64_mask_other a b h j ne =
    let (p, q, r) = bit_xor_facts 64 a b h j in
    let some_bit : 0 < bit_xor a b = nonzero (bit_xor a b) (λ e. ne (q e)) in
    rw (spread (bit_xor a b) some_bit p) refl

pub bit_or-zero_left : (v : ℕ) → bit_or 0 v ≡ v
bit_or-zero_left v = omega (arith, bit_or-bitwise 0 v)

pub bit_and-zero_left : (v : ℕ) → bit_and 0 v ≡ 0
bit_and-zero_left v = omega (arith, bit_and-bitwise 0 v)

byte_table : holds_below (λ v. bit_and 0xff v == v) 256 ≡ true
unfolding holds_below
byte_table = refl

pub bit_and-byte : (v : ℕ) → v < 256 → bit_and 0xff v ≡ v
bit_and-byte v h = (==_iff _ _).0 (holds_below→true (λ v. bit_and 0xff v == v) 256 v h byte_table)

-- On u64s the mask is all ones where the numbers are equal, and 0 where they are not.
pub ct_eq_u64_mask_cases :
    (a b : ℕ)
    → a < 2 ^ 64
    → b < 2 ^ 64
    → ((a ≡ b) × (ct_eq_u64_mask a b ≡ ones)) ⊎ ((a ≢ b) × (ct_eq_u64_mask a b ≡ 0))
ct_eq_u64_mask_cases a b h j = elim (ℕ_discrete a b) [
  | yes same ↦ inl (same, rw (← same) (ct_eq_u64_mask_same a h))
  | no other ↦ inr (other, ct_eq_u64_mask_other a b h j other)
]
