-- ===== src/Prelude/Bits.antt =====
-- Laws of `|`, `&` and `^` on numbers, at every width, from the digit recursion.
use Prim.Native.Nat.{ℕ, zero, suc, ◌+◌, ◌-◌, ◌*◌, ◌/◌, ◌%◌, ◌^◌, ◌≤◌, ◌<◌, min, max}
use Prim.Native.Nat.{bit_and, bit_or, bit_xor, digits, differ}
use Prim.Native.Nat.{bit_and-bitwise, bit_or-bitwise, bit_xor-bitwise}
use mathlib.Core.Path.{◌≡◌, refl, ap, sym, ◌∙◌}
use native.Mathlib.Nat.{pow-suc, add-zero, add-suc, mul-le-mul_right, suc-mul}
use native.Mathlib.Omega.{arith}
use mathlib.Core.WellFounded
use private_eth_getbalance_w.Prelude.Order.{lt_wf}
use private_eth_getbalance_w.Prelude.Tests.{◌==◌, ==_iff}
use mathlib.Core.Bool.{Bool, true, ◌&&◌}
use native.Mathlib.Decide.{dec_lt}

-- Fuel above the first argument does not matter.
digits_fuel :
    (g : ℕ → ℕ) (op : ℕ → ℕ → ℕ) (n m a b : ℕ)
    → a ≤ n
    → a ≤ m
    → digits g op n a b ≡ digits g op m a b
digits_fuel g op zero zero a b p q = refl
digits_fuel g op zero (suc m) zero b p q = refl
digits_fuel g op zero (suc m) (suc a) b p q = absurd (omega arith)
digits_fuel g op (suc n) zero zero b p q = refl
digits_fuel g op (suc n) zero (suc a) b p q = absurd (omega arith)
digits_fuel g op (suc n) (suc m) zero b p q = refl
digits_fuel g op (suc n) (suc m) (suc a) b p q =
    omega (arith, digits_fuel g op n m (suc a / 2) (b / 2) (omega arith) (omega arith))

pub bit_or_step : (a b : ℕ) → bit_or a b ≡ bit_or (a / 2) (b / 2) * 2 + max (a % 2) (b % 2)
bit_or_step zero b = omega (arith, bit_or-bitwise 0 b, bit_or-bitwise 0 (b / 2))
bit_or_step (suc a) b = omega (
  arith,
  bit_or-bitwise (suc a) b,
  bit_or-bitwise (suc a / 2) (b / 2),
  digits_fuel (λ b. b) max a (suc a / 2) (suc a / 2) (b / 2) (omega arith) (omega arith),
)

pub bit_and_step : (a b : ℕ) → bit_and a b ≡ bit_and (a / 2) (b / 2) * 2 + min (a % 2) (b % 2)
bit_and_step zero b = omega (arith, bit_and-bitwise 0 b, bit_and-bitwise 0 (b / 2))
bit_and_step (suc a) b = omega (
  arith,
  bit_and-bitwise (suc a) b,
  bit_and-bitwise (suc a / 2) (b / 2),
  digits_fuel (λ b. zero) min a (suc a / 2) (suc a / 2) (b / 2) (omega arith) (omega arith),
)

pub bit_xor_step : (a b : ℕ) → bit_xor a b ≡ bit_xor (a / 2) (b / 2) * 2 + differ (a % 2) (b % 2)
bit_xor_step zero b = omega (arith, bit_xor-bitwise 0 b, bit_xor-bitwise 0 (b / 2))
bit_xor_step (suc a) b = omega (
  arith,
  bit_xor-bitwise (suc a) b,
  bit_xor-bitwise (suc a / 2) (b / 2),
  digits_fuel (λ b. b) differ a (suc a / 2) (suc a / 2) (b / 2) (omega arith) (omega arith),
)

-- What holds of 0, and of a number if it holds of its half, holds of all.
by_halves : (P : ℕ → Type 0) → P 0 → ((n : ℕ) → P (suc n / 2) → P (suc n)) → (a : ℕ) → P a
by_halves P start next a = WellFounded.induction lt_wf {C = P} a (λ n. split n)
  where
    split : (n : ℕ) → ((half : ℕ) → half < n → P half) → P n
    split zero known = start
    split (suc n) known = next n (known (suc n / 2) (omega arith))

pub bit_or-zero : (a : ℕ) → bit_or a 0 ≡ a
bit_or-zero = by_halves (λ a. bit_or a 0 ≡ a) refl (λ n h. omega (arith, bit_or_step (suc n) 0, h))

bit_and-zero : (a : ℕ) → bit_and a 0 ≡ 0
bit_and-zero =
    by_halves (λ a. bit_and a 0 ≡ 0) refl (λ n h. omega (arith, bit_and_step (suc n) 0, h))

differ_digit : (d : ℕ) → d < 2 → (differ d 0 ≡ d) × (differ d 1 ≡ 1 - d)
differ_digit zero h = (refl, refl)
differ_digit (suc zero) h = (refl, refl)
differ_digit (suc (suc d)) h = absurd (omega arith)

pub bit_xor-zero : (a : ℕ) → bit_xor a 0 ≡ a
bit_xor-zero =
    by_halves (λ a. bit_xor a 0 ≡ a) refl
      (λ n h. omega (arith, bit_xor_step (suc n) 0, differ_digit (suc n % 2) (omega arith), h))

mul-pow-suc : (q k : ℕ) → q * 2 ^ suc k ≡ 2 * (q * 2 ^ k)
mul-pow-suc q k = omega (arith, ap (λ (t : ℕ). q * t) (pow-suc 2 k))

-- A field that starts at bit `k` is added by `|` to a number of `k` bits.
pub bit_or_disjoint : (k a q : ℕ) → a < 2 ^ k → bit_or a (q * 2 ^ k) ≡ a + q * 2 ^ k
bit_or_disjoint zero a q h =
    let e : a ≡ 0 = omega arith in rw e (omega (arith, bit_or-bitwise 0 (q * 2 ^ 0)))
bit_or_disjoint (suc k) a q h = ground (
  arith,
  bit_or_step a (q * 2 ^ suc k),
  mul-pow-suc q k,
  mul-pow-suc 1 k,
  bit_or_disjoint k (a / 2) q (omega (arith, mul-pow-suc 1 k)),
)

pub pow-pos : (k : ℕ) → 0 < 2 ^ k
pow-pos zero = omega arith
pow-pos (suc k) = omega (arith, pow-pos k, pow-suc 2 k)

-- The lowest digit of a row of ones, and the others.
ones_halves : (k : ℕ) → ((2 ^ suc k - 1) / 2 ≡ 2 ^ k - 1) × ((2 ^ suc k - 1) % 2 ≡ 1)
ones_halves k = rw (pow-suc 2 k) (omega (arith, pow-pos k), omega (arith, pow-pos k))

mod_double : (a p : ℕ) → 0 < p → a % (p * 2) ≡ (a / 2) % p * 2 + a % 2
mod_double a p h = grind arith

-- `x & (2^k - 1)` keeps the low `k` bits.
pub bit_and_mask : (k a : ℕ) → bit_and a (2 ^ k - 1) ≡ a % 2 ^ k
bit_and_mask zero a = omega (arith, bit_and-zero a)
bit_and_mask (suc k) a =
    rw
      (
        bit_and_step a (2 ^ suc k - 1),
        (ones_halves k).0,
        (ones_halves k).1,
        bit_and_mask k (a / 2),
        pow-suc 2 k,
        mod_double a (2 ^ k) (pow-pos k),
      )
      (omega arith)

-- `x ^ (2^k - 1)` is the complement on `k` bits.
pub bit_xor_ones : (k a : ℕ) → a < 2 ^ k → bit_xor a (2 ^ k - 1) ≡ 2 ^ k - 1 - a
bit_xor_ones zero a h = let e : a ≡ 0 = omega arith in rw e (omega (arith, bit_xor-bitwise 0 0))
bit_xor_ones (suc k) a h =
    rw
      (
        bit_xor_step a (2 ^ suc k - 1),
        (ones_halves k).0,
        (ones_halves k).1,
        bit_xor_ones k (a / 2) (omega (arith, pow-suc 2 k)),
        (differ_digit (a % 2) (omega arith)).1,
      )
      (omega (arith, pow-suc 2 k, pow-pos k))

pub pow_mono : (a b : ℕ) → a ≤ b → 2 ^ a ≤ 2 ^ b
pow_mono a zero h = let e : a ≡ 0 = omega arith in rw e (omega arith)
pow_mono zero (suc b) h = omega (arith, pow-pos (suc b))
pow_mono (suc a) (suc b) h = omega (arith, pow-suc 2 a, pow-suc 2 b, pow_mono a b (omega arith))

pub lt_of_pow-lt : (a b : ℕ) → 2 ^ a < 2 ^ b → a < b
lt_of_pow-lt a b h = elim (dec_lt a b) [
  | yes p ↦ p
  | no p ↦ absurd (omega (arith, pow_mono b a (omega arith)))
]

-- A test that holds of every number below a bound.
unfoldable pub holds_below : (ℕ → Bool) → ℕ → Bool
holds_below test zero = true
holds_below test (suc k) = holds_below test k && test k

pub holds_below→true :
    (test : ℕ → Bool) (k v : ℕ) → v < k → holds_below test k ≡ true → test v ≡ true
unfolding holds_below
holds_below→true test zero v lt h = absurd (omega arith)
holds_below→true test (suc k) v lt h = ground (arith, holds_below→true test k v)

top_bit_table : holds_below (λ b. bit_and b 0x80 == b / 128 * 128) 256 ≡ true
unfolding holds_below
top_bit_table = refl

-- `b & 0x80` of a byte is 0 or 128.
pub bit_and-top : (b : ℕ) → b < 256 → bit_and b 0x80 ≡ b / 128 * 128
bit_and-top b h = (==_iff _ _).0 (holds_below→true _ 256 b h top_bit_table)

-- `a | 0x80` of seven bits, and `a & 0x7f`.
pub bit_or-top : (g : ℕ) → g < 128 → bit_or g 0x80 ≡ g + 128
bit_or-top g h = bit_or_disjoint 7 g 1 h

pub bit_and-low : (a : ℕ) → bit_and a 0x7f ≡ a % 128
bit_and-low a = bit_and_mask 7 a

pub pow-add : (a b : ℕ) → 2 ^ (a + b) ≡ 2 ^ a * 2 ^ b
pow-add a zero = rw add-zero (omega arith)
pow-add a (suc b) = rw add-suc (
    omega
      (arith, pow-suc 2 (a + b), pow-suc 2 b, pow-add a b, ap (λ (t : ℕ). 2 ^ a * t) (pow-suc 2 b)))

pow_split : (s : ℕ) → s < 64 → 2 ^ (64 - s) * 2 ^ s ≡ 2 ^ 64
pow_split s h =
    let e : 64 - s + s ≡ 64 = omega arith in sym (pow-add (64 - s) s) ∙ ap (λ (t : ℕ). 2 ^ t) e

-- Under bit 64, a field of whole bits leaves room for all the bits below it.
pub field_room :
    (q s acc : ℕ) → s < 64 → acc < 2 ^ s → q * 2 ^ s < 2 ^ 64 → acc + q * 2 ^ s < 2 ^ 64
field_room q s acc hs ha hq = elim (dec_lt q (2 ^ (64 - s))) [
  | yes p ↦ omega (arith, mul-le-mul_right (2 ^ s) p, pow_split s hs, suc-mul q (2 ^ s))
  | no p ↦
      let above : 2 ^ (64 - s) ≤ q = omega arith in
      absurd (omega (arith, mul-le-mul_right (2 ^ s) above, pow_split s hs))
]
