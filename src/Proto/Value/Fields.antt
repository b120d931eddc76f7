-- ===== src/Proto/Value/Fields.antt =====
-- What `write_bits` and `read_bits` do to a whole field of the bit string.
use private_eth_getbalance_w.Prelude.{
  ℕ, zero, suc, ◌+◌, ◌*◌, ◌/◌, ◌%◌, ◌^◌, ◌<◌, ◌≤◌, ◌≡◌, refl, sym, ◌∙◌, ap, subst, arith, List, [],
  ◌∷◌, ◌++◌, inl, inr, Bool-cases,
}
use private_eth_getbalance_w.Prelude.{
  Outcome, ok, if◌then◌else◌, length, length-append, length-set, replicate, set, get_or, All, ◌==◌,
  bit_and, bit_or,
}
use private_eth_getbalance_w.Prelude.Bits.{bit_and_mask, bit_or_disjoint}
use private_eth_getbalance_w.Proto.Varint.{IsByte}
use private_eth_getbalance_w.Proto.Value.{
  write_bit, read_bit, write_bits_loop, write_bits, read_bits_loop, read_bits,
}
use private_eth_getbalance_w.Proto.Value.Bits.{bits_of, length-bits_of, round}
use native.Mathlib.Nat.{pow-suc, div-div-eq-div-mul, mul-add, mul_assoc}
use mathlib.Core.List.{append_assoc}

-- The low `n` bits of a number, and the number that bits stand for.
abbrev pub digits : ℕ → ℕ → List ℕ
digits zero v = []
digits (suc n) v = v % 2 ∷ digits n (v / 2)

abbrev pub number : List ℕ → ℕ
number [] = 0
number (x ∷ xs) = x + 2 * number xs

abbrev pub IsBit : ℕ → Type 0
IsBit x = x < 2

pub length-digits : (n v : ℕ) → length (digits n v) ≡ n
length-digits zero v = refl
length-digits (suc n) v = ap suc (length-digits n (v / 2))

pub digits-IsBit : (n v : ℕ) → All IsBit (digits n v)
digits-IsBit zero v = tt
digits-IsBit (suc n) v = (omega arith, digits-IsBit n (v / 2))

pub bits_of-IsBit : (bytes : List ℕ) → All IsBit (bits_of bytes)
bits_of-IsBit [] = tt
bits_of-IsBit (b ∷ bytes) = (
  omega arith,
  (
    omega arith,
    (
      omega arith,
      (
        omega arith,
        (omega arith, (omega arith, (omega arith, (omega arith, bits_of-IsBit bytes)))),
      ),
    ),
  ),
)

pub middle : (front field back : List ℕ) → All IsBit (front ++ (field ++ back)) → All IsBit field
middle (x ∷ front) field back a = middle front field back a.1
middle [] [] back a = tt
middle [] (x ∷ field) back a = (a.0, middle [] field back a.1)

pub number-digits : (n v : ℕ) → v < 2 ^ n → number (digits n v) ≡ v
number-digits zero v h = omega arith
number-digits (suc n) v h =
    omega (arith, pow-suc 2 n, number-digits n (v / 2) (omega (arith, pow-suc 2 n)))

pow_next : (i : ℕ) → 2 ^ (i + 1) ≡ 2 ^ i * 2
pow_next i = ap (λ k. 2 ^ k) (omega arith) ∙ pow-suc 2 i

halved : (v i : ℕ) → v / 2 ^ (i + 1) ≡ v / 2 ^ i / 2
halved v i =
    sym (div-div-eq-div-mul v (2 ^ i) 2 ∙ ap (λ k. v / k) (omega (arith, pow-suc 2 i, pow_next i)))

set_middle :
    (front back : List ℕ) (x v : ℕ) → set (front ++ x ∷ back) (length front) v ≡ front ++ v ∷ back
set_middle [] back x v = refl
set_middle (y ∷ front) back x v = ap (◌∷◌ y) (set_middle front back x v)

get_middle : (front back : List ℕ) (x : ℕ) → get_or (front ++ x ∷ back) (length front) 0 ≡ x
get_middle [] back x = refl
get_middle (y ∷ front) back x = get_middle front back x

-- A middle bit moved to the end of what is in front of it.
shifted : (front back : List ℕ) (x : ℕ) → front ++ x ∷ back ≡ (front ++ x ∷ []) ++ back
shifted front back x = sym (append_assoc front (x ∷ []) back)

length-front : (front : List ℕ) (x : ℕ) → length (front ++ x ∷ []) ≡ length front + 1
length-front front x = length-append front (x ∷ [])

-- The buffer is what was in front, the field, and what was behind it.
pub record Holds (buf front field back : List ℕ) : Type 0 where
  pub bits : bits_of buf ≡ front ++ (field ++ back)
  pub bytes : All IsByte buf

inside :
    (buf front back : List ℕ) (x : ℕ)
    → bits_of buf ≡ front ++ x ∷ back
    → length front < 8 * length buf
inside buf front back x h =
    omega (arith, length-bits_of buf, length-append front (x ∷ back), ap length h)

-- A written field, of `n` bits of `w`.
abbrev Written : (E : Type 0) → Outcome E (List ℕ) → ℕ → (front field back : List ℕ) → Type 0
Written E run size front field back =
    (after : List ℕ) × (run ≡ ok after) × Holds after front field back × (length after ≡ size)

low_bit : (i value : ℕ) → i < 128 → bit_and (value / 2 ^ (i % 128)) 1 ≡ value / 2 ^ i % 2
low_bit i value h = let same : i % 128 ≡ i = omega arith in rw same (bit_and_mask 1 (value / 2 ^ i))

write_bit-low :
    (E : Type 0) (i value : ℕ) (buf front rest back : List ℕ)
    → i < 128
    → Holds buf front (0 ∷ rest) back
    → Written E
        (write_bit value i (length front) buf)
        (length buf)
        (front ++ (value / 2 ^ i % 2 ∷ []))
        rest
        back
unfolding write_bit
write_bit-low E i value buf front rest back h b =
    elim (Bool-cases (bit_and (value / 2 ^ (i % 128)) 1 == 1)) [
      | inl one ↦
          let s = round buf (length front) b.bytes (inside buf front (rest ++ back) 0 b.bits) in
          let bit : value / 2 ^ i % 2 ≡ 1 = ground (arith, low_bit i value h) in
          let after : List ℕ =
            set buf (length front / 8) (bit_or s.byte (2 ^ (length front % 8))) in
          let holds : bits_of after ≡ front ++ 1 ∷ (rest ++ back) =
            s.bits
            ∙ ap (λ l. set l (length front) 1) b.bits
            ∙ set_middle front (rest ++ back) 0 1 in
          (
            after,
            rw (one, s.here) refl,
            rw bit (record { bits = holds ∙ shifted front (rest ++ back) 1; bytes = s.bytes }),
            length-set buf (length front / 8) (bit_or s.byte (2 ^ (length front % 8))),
          )
      | inr clear ↦
          let bit : value / 2 ^ i % 2 ≡ 0 = ground (arith, low_bit i value h) in
          (
            buf,
            rw clear refl,
            rw bit (record { bits = b.bits ∙ shifted front (rest ++ back) 0; bytes = b.bytes }),
            refl,
          )
    ]

write_bits_loop-digits :
    (E : Type 0) (left i value : ℕ) (buf front back : List ℕ)
    → i + left ≤ 128
    → Holds buf front (replicate left 0) back
    → Written E
        (write_bits_loop left i buf (length front) value)
        (length buf)
        front
        (digits left (value / 2 ^ i))
        back
unfolding write_bits_loop
write_bits_loop-digits E zero i value buf front back h b =
    (buf, refl, record { bits = b.bits; bytes = b.bytes }, refl)
write_bits_loop-digits E (suc left) i value buf front back h b =
    let (one, e1, b1, l1) =
      write_bit-low E i value buf front (replicate left 0) back (omega arith) b in
    let (all, e2, b2, l2) =
      write_bits_loop-digits E left (i + 1) value one (front ++ (value / 2 ^ i % 2 ∷ [])) back
        (omega arith) b1 in
    (
      all,
      rw (e1, ← length-front front (value / 2 ^ i % 2)) e2,
      record {
        bits =
            b2.bits
            ∙ ap (λ l. (front ++ (value / 2 ^ i % 2 ∷ [])) ++ (digits left l ++ back))
                (halved value i)
            ∙ sym (shifted front (digits left (value / 2 ^ i / 2) ++ back) (value / 2 ^ i % 2));
        bytes = b2.bytes;
      },
      l2 ∙ l1,
    )

next_value :
    (i value x : ℕ)
    → value < 2 ^ i
    → IsBit x
    → (if x == 1 then bit_or value (2 ^ i) else value) ≡ value + 2 ^ i * x
next_value i value zero small f = omega arith
next_value i value (suc zero) small f =
    ap (bit_or value) (omega arith) ∙ bit_or_disjoint i value 1 small ∙ omega arith
next_value i value (suc (suc x)) small f = absurd (omega arith)

read_bit-next :
    (E : Type 0) (i value x : ℕ) (buf front rest back : List ℕ)
    → i < 128
    → value < 2 ^ i
    → IsBit x
    → Holds buf front (x ∷ rest) back
    → read_bit {E = E} buf i (length front) value ≡ ok (value + 2 ^ i * x)
unfolding read_bit
read_bit-next E i value x buf front rest back h small f b =
    let s = round buf (length front) b.bytes (inside buf front (rest ++ back) x b.bits) in
    let bit : get_or (bits_of buf) (length front) 0 ≡ x =
      ap (λ l. get_or l (length front) 0) b.bits ∙ get_middle front (rest ++ back) x in
    let same : i % 128 ≡ i = omega arith in
    rw (s.here, s.test, bit, same) (ap ok (next_value i value x small f))

grown : (i value x : ℕ) → value < 2 ^ i → IsBit x → value + 2 ^ i * x < 2 ^ (i + 1)
grown i value zero small f = omega (arith, pow_next i)
grown i value (suc zero) small f = omega (arith, pow_next i)
grown i value (suc (suc x)) small f = absurd (omega arith)

gathered : (i value x n : ℕ) → value + 2 ^ i * x + 2 ^ (i + 1) * n ≡ value + 2 ^ i * (x + 2 * n)
gathered i value x n =
    rw (pow_next i, mul-add (2 ^ i) x (2 * n), mul_assoc (2 ^ i) 2 n) (omega arith)

read_bits_loop-number :
    (E : Type 0) (i value : ℕ) (buf front field back : List ℕ)
    → i + length field ≤ 128
    → value < 2 ^ i
    → All IsBit field
    → Holds buf front field back
    → read_bits_loop {E = E} (length field) i buf (length front) value
      ≡ ok (value + 2 ^ i * number field)
unfolding read_bits_loop
read_bits_loop-number E i value buf front [] back h small f b = ap ok (omega arith)
read_bits_loop-number E i value buf front (x ∷ field) back h small f b =
    let moved : Holds buf (front ++ (x ∷ [])) field back = record {
      bits = b.bits ∙ shifted front (field ++ back) x;
      bytes = b.bytes;
    } in
    rw
      (
        read_bit-next E i value x buf front field back (omega arith) small f.0 b,
        ← length-front front x,
      )
      (read_bits_loop-number E (i + 1) (value + 2 ^ i * x) buf (front ++ (x ∷ [])) field back
          (omega arith) (grown i value x small f.0) f.1 moved
        ∙ ap ok (gathered i value x (number field)))

-- `write_bits` fills a field that was clear with the low bits of its value.
pub write_bits-digits :
    {E : Type 0} (n value : ℕ) (buf front back : List ℕ)
    → n ≤ 128
    → Holds buf front (replicate n 0) back
    → Written E (write_bits buf (length front) value n) (length buf) front (digits n value) back
unfolding write_bits
write_bits-digits {E} n value buf front back h b =
    subst
      (λ v. Written E (write_bits buf (length front) value n) (length buf) front (digits n v) back)
      (omega arith) (write_bits_loop-digits E n 0 value buf front back (omega arith) b)

-- `read_bits` returns the number of the bits of a field.
pub read_bits-number :
    {E : Type 0} (n : ℕ) (buf front field back : List ℕ)
    → length field ≡ n
    → n ≤ 128
    → Holds buf front field back
    → read_bits {E = E} buf (length front) n ≡ ok (number field)
unfolding read_bits
read_bits-number {E} n buf front field back size h b =
    let clear : read_bits_loop {E = E} (length field) 0 buf (length front) 0
        ≡ ok (0 + 2 ^ 0 * number field) =
      read_bits_loop-number E 0 0 buf front field back (omega arith) (omega arith)
        (middle front field back (subst (All IsBit) b.bits (bits_of-IsBit buf))) b in
    rw (← size) (clear ∙ ap ok (omega arith))
