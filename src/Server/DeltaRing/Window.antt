-- ===== src/Server/DeltaRing/Window.antt =====
-- The ring holds the last `capacity` deltas of the history of pushes.
use private_eth_getbalance_w.Prelude.{
  ℕ, zero, suc, ◌-◌, ◌<◌, ◌≤◌, ◌≡◌, ◌≢◌, refl, sym, ◌∙◌, ap, arith, List, [], ◌∷◌, ◌++◌,
}
use private_eth_getbalance_w.Prelude.{
  ok, length, length-append, drop, length-drop, ◌==◌, Bool-cases, inl, inr, ==_iff,
}
use private_eth_getbalance_w.Proto.Delta.{BlockDelta}
use private_eth_getbalance_w.Server.DeltaRing.{DeltaRing, new, push}
use mathlib.Core.List.{foldl, tail, append-nil, append_assoc}

-- The ring after the pushes of `history`, oldest first.
pub record Holds (r : DeltaRing) (history : List BlockDelta) : Type 0 where
  pub positive : 0 < r.capacity
  pub window : r.buf ≡ drop (length history - r.capacity) history

drop_append :
    (n : ℕ) (xs ys : List BlockDelta) → n ≤ length xs → drop n (xs ++ ys) ≡ drop n xs ++ ys
drop_append zero xs ys h = refl
drop_append (suc n) [] ys h = absurd (omega arith)
drop_append (suc n) (x ∷ xs) ys h = drop_append n xs ys (omega arith)

drop_nil : (n : ℕ) → drop {A = BlockDelta} n [] ≡ []
drop_nil zero = refl
drop_nil (suc n) = refl

tail-drop : (n : ℕ) (xs : List BlockDelta) → tail (drop n xs) ≡ drop (suc n) xs
tail-drop zero [] = refl
tail-drop zero (x ∷ xs) = refl
tail-drop (suc n) [] = refl
tail-drop (suc n) (x ∷ xs) = tail-drop n xs

length_after : (h : List BlockDelta) (d : BlockDelta) → length (h ++ (d ∷ [])) ≡ suc (length h)
length_after h d = omega (arith, length-append h (d ∷ []))

full_window :
    (d : BlockDelta) (r : DeltaRing) (h : List BlockDelta)
    → Holds r h
    → length r.buf ≡ r.capacity
    → tail r.buf ++ (d ∷ []) ≡ drop (length (h ++ (d ∷ [])) - r.capacity) (h ++ (d ∷ []))
full_window d r h v full =
    let n : ℕ = length h - r.capacity in
    let size : length (drop n h) ≡ length h - n = length-drop n h in
    let held : length (drop n h) ≡ r.capacity = sym (ap length v.window) ∙ full in
    let next : length (h ++ (d ∷ [])) - r.capacity ≡ suc n =
      omega (arith, length_after h d, v.positive) in
    rw (next, v.window, tail-drop n h)
      (sym (drop_append (suc n) h (d ∷ []) (omega (arith, v.positive))))

open_window :
    (d : BlockDelta) (r : DeltaRing) (h : List BlockDelta)
    → Holds r h
    → length r.buf ≢ r.capacity
    → r.buf ++ (d ∷ []) ≡ drop (length (h ++ (d ∷ [])) - r.capacity) (h ++ (d ∷ []))
open_window d r h v room =
    let n : ℕ = length h - r.capacity in
    let held : length r.buf ≡ length h - n = ap length v.window ∙ length-drop n h in
    let same : length (h ++ (d ∷ [])) - r.capacity ≡ n = omega (arith, length_after h d, room) in
    rw same (
      ap (λ (b : List BlockDelta). b ++ (d ∷ [])) v.window
      ∙ sym (drop_append n h (d ∷ []) (omega arith)))

-- One push is one more delta of the history.
push-Holds :
    (d : BlockDelta) (r : DeltaRing) (h : List BlockDelta)
    → Holds r h
    → Holds (push d r) (h ++ (d ∷ []))
unfolding push
push-Holds d r h v = elim (Bool-cases (length r.buf == r.capacity)) [
  | inl full ↦ record {
    positive = v.positive;
    window = rw full (full_window d r h v ((==_iff _ _).0 full));
  }
  | inr room ↦ record {
    positive = v.positive;
    window = rw room (open_window d r h v (λ e. cc ((==_iff (length r.buf) r.capacity).1 e)));
  }
]

new_fields :
    (capacity : ℕ) (r : DeltaRing)
    → new capacity ≡ ok r
    → (0 < capacity) × (r.capacity ≡ capacity) × (r.buf ≡ [])
unfolding new
new_fields capacity r e = ground arith

new-Holds : (capacity : ℕ) (r : DeltaRing) → new capacity ≡ ok r → Holds r []
new-Holds capacity r e =
    let (some_room, same, nothing) = new_fields capacity r e in
    record { positive = rw same some_room; window = nothing ∙ sym (drop_nil (0 - r.capacity)) }

push_all-Holds :
    (ds : List BlockDelta) (r : DeltaRing) (h : List BlockDelta)
    → Holds r h
    → Holds (foldl (λ s d. push d s) r ds) (h ++ ds)
push_all-Holds [] r h v = rw append-nil v
push_all-Holds (d ∷ ds) r h v =
    rw append_assoc at (push_all-Holds ds (push d r) (h ++ (d ∷ [])) (push-Holds d r h v))

capacity_push_all :
    (ds : List BlockDelta) (r : DeltaRing) → (foldl (λ s d. push d s) r ds).capacity ≡ r.capacity
unfolding push
capacity_push_all [] r = refl
capacity_push_all (d ∷ ds) r = capacity_push_all ds (push d r)

-- A new ring that was given the deltas `ds` holds exactly the last `capacity` of them, in order.
pub ring_window :
    (capacity : ℕ) (r : DeltaRing) (ds : List BlockDelta)
    → new capacity ≡ ok r
    → (foldl (λ s d. push d s) r ds).buf ≡ drop (length ds - capacity) ds
ring_window capacity r ds e =
    let (some_room, same, nothing) = new_fields capacity r e in
    (push_all-Holds ds r [] (new-Holds capacity r e)).window
    ∙ ap (λ (c : ℕ). drop (length ds - c) ds) (capacity_push_all ds r ∙ same)
