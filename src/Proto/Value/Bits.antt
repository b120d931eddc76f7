-- ===== src/Proto/Value/Bits.antt =====
-- The buffer of the value codec as one list of bits, and what one round of its loops does to it.
use private_eth_getbalance_w.Prelude.{
  ℕ, zero, suc, ◌-◌, ◌*◌, ◌/◌, ◌%◌, ◌^◌, ◌<◌, ◌≡◌, refl, ◌∙◌, ap, subst, arith, List, [], ◌∷◌, ◌++◌,
  Bool, true, ◌&&◌, not, some,
}
use private_eth_getbalance_w.Prelude.{
  length, get_elem?, set, get_or, All, ltb, ltb→lt, ◌==◌, bit_and, bit_or, dec_lt, if◌then◌else◌,
}
use private_eth_getbalance_w.Prelude.Bits.{holds_below, holds_below→true}
use private_eth_getbalance_w.Proto.Varint.{IsByte}
use private_eth_getbalance_w.Proto.Codec.{bytes_eqb}

-- The eight bits of a byte, the lowest first.
abbrev pub byte_bits : ℕ → List ℕ
byte_bits b =
    b % 2
    ∷ b / 2 % 2
    ∷ b / 4 % 2
    ∷ b / 8 % 2
    ∷ b / 16 % 2
    ∷ b / 32 % 2
    ∷ b / 64 % 2
    ∷ b / 128 % 2
    ∷ []

abbrev pub bits_of : List ℕ → List ℕ
bits_of [] = []
bits_of (b ∷ bytes) = byte_bits b ++ bits_of bytes

pub length-bits_of : (bytes : List ℕ) → length (bits_of bytes) ≡ 8 * length bytes
length-bits_of [] = refl
length-bits_of (b ∷ bytes) = omega (arith, length-bits_of bytes)

bytes_eqb→≡ : (xs ys : List ℕ) → bytes_eqb xs ys ≡ true → xs ≡ ys
bytes_eqb→≡ [] [] h = refl
bytes_eqb→≡ [] (y ∷ ys) h = cc
bytes_eqb→≡ (x ∷ xs) [] h = cc
bytes_eqb→≡ (x ∷ xs) (y ∷ ys) h = ground (arith, bytes_eqb→≡ xs ys)

-- Setting bit `k` of the byte `b`, and testing it.
abbrev bits_hold : ℕ → ℕ → Bool
bits_hold k b = bytes_eqb (byte_bits (bit_or b (2 ^ k))) (set (byte_bits b) k 1)

abbrev byte_holds : ℕ → ℕ → Bool
byte_holds k b = ltb (bit_or b (2 ^ k)) 256

abbrev test_holds : ℕ → ℕ → Bool
test_holds k b =
    if bit_and b (2 ^ k) == 0 then get_or (byte_bits b) k 0 == 0 else get_or (byte_bits b) k 0 == 1

abbrev set_bit_holds : ℕ → ℕ → Bool
set_bit_holds k b = bits_hold k b && (byte_holds k b && test_holds k b)

set_bit_table : holds_below (λ k. holds_below (set_bit_holds k) 256) 8 ≡ true
unfolding holds_below
set_bit_table = refl

-- What setting bit `k` does to a byte, and what testing it finds.
record SetBit (k b : ℕ) : Type 0 where
  bits : byte_bits (bit_or b (2 ^ k)) ≡ set (byte_bits b) k 1
  byte : IsByte (bit_or b (2 ^ k))
  test : not (bit_and b (2 ^ k) == 0) ≡ (get_or (byte_bits b) k 0 == 1)

set_bit : (k b : ℕ) → k < 8 → IsByte b → SetBit k b
set_bit k b hk hb =
    let t1 : holds_below (set_bit_holds k) 256 ≡ true = holds_below→true _ 8 k hk set_bit_table in
    let t2 : set_bit_holds k b ≡ true = holds_below→true (set_bit_holds k) 256 b hb t1 in
    let (t3, t4) = and_true (bits_hold k b) (byte_holds k b && test_holds k b) t2 in
    let (t5, t6) = and_true (byte_holds k b) (test_holds k b) t4 in
    record {
      bits = bytes_eqb→≡ (byte_bits (bit_or b (2 ^ k))) (set (byte_bits b) k 1) t3;
      byte = ltb→lt (bit_or b (2 ^ k)) 256 t5;
      test = same_test (bit_and b (2 ^ k)) (get_or (byte_bits b) k 0) t6;
    }
  where
    and_true : (p q : Bool) → p && q ≡ true → (p ≡ true) × (q ≡ true)
    and_true p q h = ground arith

    same_test : (m n : ℕ) → (if m == 0 then n == 0 else n == 1) ≡ true → not (m == 0) ≡ (n == 1)
    same_test m n h = ground arith

module _ where
  set-append : (xs ys : List ℕ) (p v : ℕ) → p < length xs → set xs p v ++ ys ≡ set (xs ++ ys) p v
  set-append [] ys p v h = absurd (omega arith)
  set-append (x ∷ xs) ys zero v h = refl
  set-append (x ∷ xs) ys (suc p) v h = ap (◌∷◌ x) (set-append xs ys p v (omega arith))

  get_or-append : (xs ys : List ℕ) (p v : ℕ) → p < length xs → get_or (xs ++ ys) p v ≡ get_or xs p v
  get_or-append [] ys p v h = absurd (omega arith)
  get_or-append (x ∷ xs) ys zero v h = refl
  get_or-append (x ∷ xs) ys (suc p) v h = get_or-append xs ys p v (omega arith)

-- One round of the loops, at bit `p` of the buffer: the byte it finds, and the buffer it leaves.
pub record Round (buf : List ℕ) (p : ℕ) : Type 0 where
  pub byte : ℕ
  pub here : get_elem? buf (p / 8) ≡ some byte
  pub bytes : All IsByte (set buf (p / 8) (bit_or byte (2 ^ (p % 8))))
  pub bits : bits_of (set buf (p / 8) (bit_or byte (2 ^ (p % 8)))) ≡ set (bits_of buf) p 1
  pub test : not (bit_and byte (2 ^ (p % 8)) == 0) ≡ (get_or (bits_of buf) p 0 == 1)

first_byte : (b : ℕ) (buf : List ℕ) (p : ℕ) → p < 8 → All IsByte (b ∷ buf) → Round (b ∷ buf) p
first_byte b buf p h a =
    let q : p / 8 ≡ 0 = omega arith in
    let r : p % 8 ≡ p = omega arith in
    let s = set_bit p b h a.0 in
    record {
      byte = b;
      here = rw q refl;
      bytes = rw (q, r) (s.byte, a.1);
      bits = rw (q, r) (ap (◌++ bits_of buf) s.bits ∙ set-append (byte_bits b) (bits_of buf) p 1 h);
      test = rw (r, get_or-append (byte_bits b) (bits_of buf) p 0 h) s.test;
    }

abbrev next_byte : ℕ → ℕ
next_byte p = suc (suc (suc (suc (suc (suc (suc (suc p)))))))

later_byte : (b : ℕ) (buf : List ℕ) (p : ℕ) → IsByte b → Round buf p → Round (b ∷ buf) (next_byte p)
later_byte b buf p a s =
    let q : next_byte p / 8 ≡ suc (p / 8) = omega arith in
    let r : next_byte p % 8 ≡ p % 8 = omega arith in
    record {
      byte = s.byte;
      here = rw q s.here;
      bytes = rw (q, r) (a, s.bytes);
      bits = rw (q, r) (ap (byte_bits b ++◌) s.bits);
      test = rw r s.test;
    }

pub round : (buf : List ℕ) (p : ℕ) → All IsByte buf → p < 8 * length buf → Round buf p
round [] p a h = absurd (omega arith)
round (b ∷ buf) p a h = elim (dec_lt p 8) [
  | yes lt ↦ first_byte b buf p lt a
  | no ge ↦
      subst (Round (b ∷ buf)) (omega arith)
        (later_byte b buf (p - 8) a.0 (round buf (p - 8) a.1 (omega arith)))
]
