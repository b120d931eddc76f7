-- ===== src/Prelude/Maps.antt =====
-- `std::collections::BTreeMap`: the entries in ascending order of their keys, each key once.
use private_eth_getbalance_w.Prelude.Tests.{Bool-cases, ltb, ◌==◌, if◌then◌else◌}
use Prim.Native.Nat.{ℕ}
use mathlib.Core.Path.{◌≡◌, refl, sym, ◌∙◌, subst}
use mathlib.Core.Logic.{◌↔◌, inl, inr}
use mathlib.Core.Bool.{Bool, true, false, ◌&&◌, ◌||◌}
use mathlib.Core.Option.{Option, none, some}
use mathlib.Core.List.{List, [], ◌∷◌}
use native.Mathlib.Omega.{arith}

-- `Ord` of a key.
pub record Key (K : Type 0) : Type 0 where
  pub eqb : K → K → Bool
  pub before : K → K → Bool
  pub eqb_iff : (a b : K) → (eqb a b ≡ true) ↔ (a ≡ b)
  pub before_trans : (a b c : K) → before a b ≡ true → before b c ≡ true → before a c ≡ true
  pub before_irrefl : (a : K) → before a a ≡ false
  pub before_total : (a b : K) → before a b ≡ false → eqb a b ≡ false → before b a ≡ true

pub ℕ-eqb_iff : (a b : ℕ) → ((a == b) ≡ true) ↔ (a ≡ b)
ℕ-eqb_iff a b = ground arith

pub ℕ-before_trans : (a b c : ℕ) → ltb a b ≡ true → ltb b c ≡ true → ltb a c ≡ true
ℕ-before_trans a b c h k = ground arith

pub ℕ-before_total : (a b : ℕ) → ltb a b ≡ false → (a == b) ≡ false → ltb b a ≡ true
ℕ-before_total a b h k = ground arith

pub ℕ-before_irrefl : (a : ℕ) → ltb a a ≡ false
ℕ-before_irrefl a = ground arith

instance abbrev pub nat_key : Key ℕ
nat_key = record {
  eqb = ◌==◌;
  before = ltb;
  eqb_iff = ℕ-eqb_iff;
  before_trans = ℕ-before_trans;
  before_irrefl = ℕ-before_irrefl;
  before_total = ℕ-before_total;
}

-- Pairs are ordered by the first part, then by the second.
abbrev pub pair_eqb : ℕ × ℕ → ℕ × ℕ → Bool
pair_eqb a b = a.0 == b.0 && a.1 == b.1

abbrev pub pair_before : ℕ × ℕ → ℕ × ℕ → Bool
pair_before a b = ltb a.0 b.0 || (a.0 == b.0 && ltb a.1 b.1)

pub pair_eqb_iff : (a b : ℕ × ℕ) → (pair_eqb a b ≡ true) ↔ (a ≡ b)
pair_eqb_iff (a, c) (b, d) = ground arith

pub pair_before_trans :
    (a b c : ℕ × ℕ) → pair_before a b ≡ true → pair_before b c ≡ true → pair_before a c ≡ true
pair_before_trans (a, a') (b, b') (c, c') h k = ground arith

pub pair_before_irrefl : (a : ℕ × ℕ) → pair_before a a ≡ false
pair_before_irrefl (a, b) = ground arith

pub pair_before_total :
    (a b : ℕ × ℕ) → pair_before a b ≡ false → pair_eqb a b ≡ false → pair_before b a ≡ true
pair_before_total (a, a') (b, b') h k = ground arith

instance abbrev pub pair_key : Key (ℕ × ℕ)
pair_key = record {
  eqb = pair_eqb;
  before = pair_before;
  eqb_iff = pair_eqb_iff;
  before_trans = pair_before_trans;
  before_irrefl = pair_before_irrefl;
  before_total = pair_before_total;
}

abbrev pub BTreeMap {ℓ} : Type 0 → Type ℓ → Type ℓ
BTreeMap K V = List (K × V)

module _ {ℓ} {K : Type 0} {V : Type ℓ} ⦃key : Key K⦄ where
  -- `m.get(&k)`
  unfoldable pub get : K → BTreeMap K V → Option V
  get k [] = none
  get k ((j, v) ∷ m) = if key.eqb j k then some v else get k m

  -- `m.insert(k, v)`
  unfoldable pub insert : K → V → BTreeMap K V → BTreeMap K V
  insert k v [] = (k, v) ∷ []
  insert k v ((j, w) ∷ m) =
      if key.eqb j k
      then (k, v) ∷ m
      else if key.before k j
      then (k, v) ∷ ((j, w) ∷ m)
      else (j, w) ∷ insert k v m

  -- `m.remove(&k)`
  unfoldable pub remove : K → BTreeMap K V → BTreeMap K V
  remove k [] = []
  remove k ((j, w) ∷ m) = let rest = remove k m in if key.eqb j k then rest else (j, w) ∷ rest

  -- Every key of the map comes after `k`; the keys are in strictly ascending order.
  abbrev pub IsAfter : K → BTreeMap K V → Type 0
  IsAfter k [] = Unit
  IsAfter k ((j, v) ∷ m) = (key.before k j ≡ true) × IsAfter k m

  abbrev pub IsOrdered : BTreeMap K V → Type 0
  IsOrdered [] = Unit
  IsOrdered ((k, v) ∷ m) = IsAfter k m × IsOrdered m

  pub get-insert :
      (j k : K) (v : V) (m : BTreeMap K V)
      → get j (insert k v m) ≡ (if key.eqb k j then some v else get j m)
  unfolding get insert
  get-insert j k v [] = refl
  get-insert j k v ((i, w) ∷ m) =
      ground (arith, key.eqb_iff k j, key.eqb_iff i k, key.eqb_iff i j, get-insert j k v m)

  pub get-remove :
      (j k : K) (m : BTreeMap K V) → get j (remove k m) ≡ (if key.eqb k j then none else get j m)
  unfolding get remove
  get-remove j k [] = ground arith
  get-remove j k ((i, w) ∷ m) =
      ground (arith, key.eqb_iff k j, key.eqb_iff i k, key.eqb_iff i j, get-remove j k m)

  pub IsAfter-trans :
      (j k : K) (m : BTreeMap K V) → key.before j k ≡ true → IsAfter k m → IsAfter j m
  IsAfter-trans j k [] h a = tt
  IsAfter-trans j k ((i, v) ∷ m) h a = (key.before_trans j k i h a.0, IsAfter-trans j k m h a.1)

  insert-IsAfter :
      (j k : K) (v : V) (m : BTreeMap K V)
      → key.before j k ≡ true
      → IsAfter j m
      → IsAfter j (insert k v m)
  unfolding insert
  insert-IsAfter j k v [] h a = (h, tt)
  insert-IsAfter j k v ((i, w) ∷ m) h a = ground (arith, insert-IsAfter j k v m h a.1)

  remove-IsAfter : (j k : K) (m : BTreeMap K V) → IsAfter j m → IsAfter j (remove k m)
  unfolding remove
  remove-IsAfter j k [] a = tt
  remove-IsAfter j k ((i, w) ∷ m) a = ground (arith, remove-IsAfter j k m a.1)

  pub insert-IsOrdered : (k : K) (v : V) (m : BTreeMap K V) → IsOrdered m → IsOrdered (insert k v m)
  unfolding insert
  insert-IsOrdered k v [] o = (tt, tt)
  insert-IsOrdered k v ((i, w) ∷ m) o = ground (
    arith,
    key.eqb_iff i k,
    key.eqb_iff k i,
    key.before_total k i,
    IsAfter-trans k i m,
    insert-IsAfter i k v m,
    insert-IsOrdered k v m o.1,
  )

  pub remove-IsOrdered : (k : K) (m : BTreeMap K V) → IsOrdered m → IsOrdered (remove k m)
  unfolding remove
  remove-IsOrdered k [] o = tt
  remove-IsOrdered k ((i, w) ∷ m) o =
      ground (arith, remove-IsOrdered k m o.1, remove-IsAfter i k m o.0)

  pub get_of_after : (k : K) (m : BTreeMap K V) → IsAfter k m → get k m ≡ none
  unfolding get
  get_of_after k [] a = refl
  get_of_after k ((i, v) ∷ m) a =
      ground (arith, key.eqb_iff i k, key.before_irrefl k, get_of_after k m a.1)

  get_head : (k : K) (v : V) (m : BTreeMap K V) → get k ((k, v) ∷ m) ≡ some v
  unfolding get
  get_head k v m = rw ((key.eqb_iff k k).1 refl)

  get_skip :
      (i k : K) (v : V) (m : BTreeMap K V) → key.eqb k i ≡ false → get i ((k, v) ∷ m) ≡ get i m
  unfolding get
  get_skip i k v m h = rw h

  -- A key that comes before all of `m'` has no entry there.
  head_absent :
      (k : K) (v : V) (m m' : BTreeMap K V)
      → IsAfter k m'
      → ((i : K) → get i m' ≡ get i ((k, v) ∷ m))
      → ⊥
  head_absent k v m m' a same = cc (get_of_after k m' a, same k, get_head k v m)

  -- Under one first key the rest reads alike.
  rest_same :
      (k : K) (v w : V) (m m' : BTreeMap K V)
      → IsAfter k m
      → IsAfter k m'
      → ((i : K) → get i ((k, v) ∷ m) ≡ get i ((k, w) ∷ m'))
      → (i : K) → get i m ≡ get i m'
  rest_same k v w m m' a a' same i = elim (Bool-cases (key.eqb k i)) [
    | inl e ↦
        let at : k ≡ i = (key.eqb_iff k i).0 e in
        rw (← at) (get_of_after k m a ∙ sym (get_of_after k m' a'))
    | inr ne ↦ sym (get_skip i k v m ne) ∙ same i ∙ get_skip i k w m' ne
  ]

  same_head :
      (k : K) (v w : V) (m m' : BTreeMap K V)
      → IsAfter k m
      → IsAfter k m'
      → ((i : K) → get i ((k, v) ∷ m) ≡ get i ((k, w) ∷ m'))
      → (((i : K) → get i m ≡ get i m') → m ≡ m')
      → (k, v) ∷ m ≡ (k, w) ∷ m'
  same_head k v w m m' a a' same tails =
      let here : some v ≡ some w = sym (get_head k v m) ∙ same k ∙ get_head k w m' in
      let rest : m ≡ m' = tails (rest_same k v w m m' a a' same) in cc

  -- An ordered map is determined by its lookups.
  pub get_ext :
      (m m' : BTreeMap K V) → IsOrdered m → IsOrdered m' → ((k : K) → get k m ≡ get k m') → m ≡ m'
  get_ext [] [] o o' same = refl
  get_ext [] ((k, v) ∷ m') o o' same = absurd (head_absent k v m' [] tt (λ j. same j))
  get_ext ((k, v) ∷ m) [] o o' same = absurd (head_absent k v m [] tt (λ j. sym (same j)))
  get_ext ((k, v) ∷ m) ((j, w) ∷ m') o o' same = elim (Bool-cases (key.before k j)) [
    | inl b ↦
        absurd
          (head_absent k v m ((j, w) ∷ m') (b, IsAfter-trans k j m' b o'.0) (λ i. sym (same i)))
    | inr nb ↦ elim (Bool-cases (key.eqb k j)) [
      | inl e ↦
          let at : j ≡ k = sym ((key.eqb_iff k j).0 e) in
          rw at (
            same_head k v w m m' o.0 (subst (λ i. IsAfter i m') at o'.0)
              (subst (λ i. (x : K) → get x ((k, v) ∷ m) ≡ get x ((i, w) ∷ m')) at same)
              (get_ext m m' o.1 o'.1))
      | inr ne ↦
          let b : key.before j k ≡ true = key.before_total k j nb ne in
          absurd (head_absent j w m' ((k, v) ∷ m) (b, IsAfter-trans j k m b o.0) (λ i. same i))
    ]
  ]
