-- ===== src/Prelude/Results.antt =====
-- The outcome of fallible Rust code: a value, an `Err`, or a panic.
use mathlib.Core.Path.{◌≡◌, refl, ap}
use mathlib.Core.Logic.{◌⊎◌, inl, inr}
use mathlib.Core.Bool.{Bool, true, false}
use mathlib.Core.Option.{Option, none, some}

pub data Outcome {ℓ} (E : Type 0) (A : Type ℓ) : Type ℓ where
  ok : A → Outcome E A
  err : E → Outcome E A
  panic : Outcome E A

-- `if !test { return Err(e) }`
abbrev pub guard : {E : Type 0} → Bool → E → Outcome E (Unit {0})
guard false e = err e
guard true e = ok tt

-- `o.ok_or(e)`
abbrev pub ok_or {ℓ} : {E : Type 0} {A : Type ℓ} → Option A → E → Outcome E A
ok_or none e = err e
ok_or (some a) e = ok a

-- An indexing expression, which panics out of bounds.
abbrev pub or_panic {ℓ} : {E : Type 0} {A : Type ℓ} → Option A → Outcome E A
or_panic none = panic
or_panic (some a) = ok a

infixl 5 ◌>>=◌ ◌>>◌
abbrev pub ◌>>=◌ {ℓ κ} :
    {E : Type 0} {A : Type ℓ} {B : Type κ} → Outcome E A → (A → Outcome E B) → Outcome E B
panic >>= next = panic
err e >>= next = err e
ok a >>= next = next a

abbrev pub ◌>>◌ {ℓ} : {E : Type 0} {B : Type ℓ} → Outcome E (Unit {0}) → Outcome E B → Outcome E B
first >> second = first >>= λ _. second

-- The two parts of a bind that succeeded.
pub >>=-eq-ok {ℓ κ} :
    {E : Type 0} {A : Type ℓ} {B : Type κ} (run : Outcome E A) (next : A → Outcome E B) {result : B}
    → (run >>= next) ≡ ok result
    → (a : A) × (run ≡ ok a) × (next a ≡ ok result)
>>=-eq-ok panic next h = cc
>>=-eq-ok (err e) next h = cc
>>=-eq-ok (ok a) next h = (a, refl, h)

pub ok_or-eq-ok {ℓ} :
    {E : Type 0} {A : Type ℓ} (o : Option A) (e : E) {a : A} → ok_or o e ≡ ok a → o ≡ some a
ok_or-eq-ok none e h = cc
ok_or-eq-ok (some b) e h = cc

pub ok-injective {ℓ} :
    {E : Type 0} {A : Type ℓ} (a b : A) → ◌≡◌ {A = Outcome E A} (ok a) (ok b) → a ≡ b
ok-injective a b h = cc

-- The values of two equal readings.
pub ok_first {ℓ κ} :
    {E : Type 0} {A : Type ℓ} {B : Type κ} (a b : A) (r s : B)
    → ◌≡◌ {A = Outcome E (A × B)} (ok (a, r)) (ok (b, s))
    → a ≡ b
ok_first a b r s h = ap (λ p. p.0) (ok-injective (a, r) (b, s) h)

pub guard-true : {E : Type 0} (b : Bool) (e : E) (u : Unit {0}) → guard b e ≡ ok u → b ≡ true
guard-true true e u h = refl
guard-true false e u h = cc

-- `r.is_ok()`
abbrev pub is_ok {ℓ} : {E : Type 0} {A : Type ℓ} → Outcome E A → Bool
is_ok (ok a) = true
is_ok (err e) = false
is_ok panic = false

pub >>=-eq-err :
    {E : Type 0} {A B : Type 0} (m : Outcome E A) (f : A → Outcome E B) (x : E)
    → (m >>= f) ≡ err x
    → ◌≡◌ {A = Outcome E A} m (err x) ⊎ ((a : A) × (f a ≡ err x))
>>=-eq-err (ok a) f x h = inr (a, h)
>>=-eq-err (err e) f x h = inl cc
>>=-eq-err panic f x h = cc

pub >>=-cong :
    {E : Type 0} {A B : Type 0} (m : Outcome E A) (f g : A → Outcome E B)
    → ((a : A) → f a ≡ g a)
    → (m >>= f) ≡ (m >>= g)
>>=-cong (ok a) f g h = h a
>>=-cong (err e) f g h = refl
>>=-cong panic f g h = refl

pub >>=_assoc :
    {E : Type 0} {A B D : Type 0} (m : Outcome E A) (f : A → Outcome E B) (g : B → Outcome E D)
    → ((m >>= f) >>= g) ≡ (m >>= λ a. f a >>= g)
>>=_assoc (ok a) f g = refl
>>=_assoc (err e) f g = refl
>>=_assoc panic f g = refl

-- A run that may panic but has no error to report.
abbrev pub IsErrFree : {E : Type 0} {A : Type 0} → Outcome E A → Type 0
IsErrFree (ok a) = Unit
IsErrFree (err e) = ⊥
IsErrFree panic = Unit

pub >>=-IsErrFree :
    {E : Type 0} {A B : Type 0} (run : Outcome E A) (next : A → Outcome E B)
    → IsErrFree run
    → ((a : A) → IsErrFree (next a))
    → IsErrFree (run >>= next)
>>=-IsErrFree (ok a) next h k = k a
>>=-IsErrFree (err e) next h k = h
>>=-IsErrFree panic next h k = tt

pub or_panic-IsErrFree : (E : Type 0) {A : Type 0} (o : Option A) → IsErrFree (or_panic {E = E} o)
or_panic-IsErrFree E none = tt
or_panic-IsErrFree E (some a) = tt

pub or_panic-eq-ok {ℓ} :
    (E : Type 0) {A : Type ℓ} (o : Option A) (a : A) → or_panic {E = E} o ≡ ok a → o ≡ some a
or_panic-eq-ok E none a h = cc
or_panic-eq-ok E (some x) a h = cc

-- A run that gives a value or an error.
abbrev pub IsPanicFree {ℓ} : {E : Type 0} {A : Type ℓ} → Outcome E A → Type 0
IsPanicFree (ok a) = Unit
IsPanicFree (err e) = Unit
IsPanicFree panic = ⊥

pub >>=-IsPanicFree :
    {E : Type 0} {A B : Type 0} (run : Outcome E A) (next : A → Outcome E B)
    → IsPanicFree run
    → ((a : A) → IsPanicFree (next a))
    → IsPanicFree (run >>= next)
>>=-IsPanicFree (ok a) next h k = k a
>>=-IsPanicFree (err e) next h k = tt
>>=-IsPanicFree panic next h k = h

pub guard-IsPanicFree : {E : Type 0} (b : Bool) (e : E) → IsPanicFree (guard b e)
guard-IsPanicFree false e = tt
guard-IsPanicFree true e = tt
