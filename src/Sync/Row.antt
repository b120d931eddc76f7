-- ===== src/Sync/Row.antt =====
-- A row of a pending map, as `row_range` reads it.
use private_eth_getbalance_w.Prelude.{
  ℕ, ◌-◌, ◌^◌, ◌≤◌, ◌<◌, ◌≡◌, ◌≢◌, ◌↔◌, refl, ◌∙◌, ap, arith, [], ◌∷◌, All, Bool, Bool-cases, inl,
  inr, not, ◌&&◌, ◌==◌, ==_iff, true, false,
}
use private_eth_getbalance_w.Prelude.Int.{pos, +ℤ-zero, zero-+ℤ}
use private_eth_getbalance_w.Prelude.Maps.{
  get, IsOrdered, IsAfter, nat_key, pair_key, pair_before, pair_eqb, get_of_after,
}
use private_eth_getbalance_w.Proto.Delta.{value_or_zero}
use private_eth_getbalance_w.Proto.Delta.Sums.{cells_at}
use private_eth_getbalance_w.Client.Pending.{PendingMap, row_range}
use private_eth_getbalance_w.Client.Pending.Sums.{cell_at}
use private_eth_getbalance_w.Client.Pending.Invariant.{IsPending}

-- The bounds of `row_range`.
abbrev is_between : ℕ → ℕ × ℕ → Bool
is_between row k = not (pair_before k (row, 0)) && not (pair_before (row, 2 ^ 16 - 1) k)

between_iff : (row : ℕ) (k : ℕ × ℕ) → (is_between row k ≡ true) ↔ ((k.0 ≡ row) × (k.1 < 65536))
between_iff row (r, o) = (λ h. ground arith, λ h. ground (arith, h.0, h.1))

row_range-IsAfter : (row o : ℕ) (m : PendingMap) → IsAfter (row, o) m → IsAfter o (row_range row m)
unfolding row_range
row_range-IsAfter row o [] h = tt
row_range-IsAfter row o ((k, d) ∷ m) h =
    ground (arith, between_iff row k, row_range-IsAfter row o m h.1)

pub row_range-IsOrdered : (row : ℕ) (m : PendingMap) → IsOrdered m → IsOrdered (row_range row m)
unfolding row_range
row_range-IsOrdered row [] h = tt
row_range-IsOrdered row ((k, d) ∷ m) h = elim (Bool-cases (is_between row k)) [
  | inl own ↦
      let at : k.0 ≡ row = ((between_iff row k).0 own).0 in
      let after : IsAfter (row, k.1) m = rw (← at) (h.0) in
      rw own (row_range-IsAfter row k.1 m after, row_range-IsOrdered row m h.1)
  | inr other ↦ rw other (row_range-IsOrdered row m h.1)
]

-- No entry of a pending map is zero.
entries_nonzero : (m : PendingMap) → IsPending m → All (λ e. e.1 ≢ pos 0) m
unfolding get
entries_nonzero [] h = tt
entries_nonzero ((k, d) ∷ m) h =
    let same : pair_eqb k k ≡ true = (pair_key.eqb_iff k k).1 refl in
    (
      (λ e. h.nonzero k (rw (same, e) refl)),
      entries_nonzero m (record {
        ascending = h.ascending.1;
        nonzero = λ j e. elim (Bool-cases (pair_eqb k j)) [
          | inl at ↦
              let at : k ≡ j = (pair_key.eqb_iff k j).0 at in
              cc (get_of_after k m h.ascending.0, rw (← at) at e)
          | inr other ↦ h.nonzero j (rw other e)
        ];
      }),
    )

nonzero-row_range :
    (row : ℕ) (m : PendingMap) → All (λ e. e.1 ≢ pos 0) m → All (λ e. e.1 ≢ pos 0) (row_range row m)
unfolding row_range
nonzero-row_range row [] h = tt
nonzero-row_range row ((k, d) ∷ m) h = elim (Bool-cases (is_between row k)) [
  | inl own ↦ rw own (h.0, nonzero-row_range row m h.1)
  | inr other ↦ rw other (nonzero-row_range row m h.1)
]

pub row_range_nonzero :
    (row : ℕ) (m : PendingMap) → IsPending m → All (λ e. e.1 ≢ pos 0) (row_range row m)
row_range_nonzero row m h = nonzero-row_range row m (entries_nonzero m h)

elsewhere :
    (row o : ℕ) (k : ℕ × ℕ)
    → is_between row k ≡ true
    → pair_eqb k (row, o) ≡ false
    → (k.1 == o) ≡ false
elsewhere row o (r, p) own other = ground (arith, (between_iff row (r, p)).0 own)

pub cells_at-row_range :
    (row o : ℕ) (m : PendingMap)
    → o < 65536
    → IsOrdered m
    → cells_at o (row_range row m) ≡ cell_at row o m
unfolding row_range cells_at cell_at get
cells_at-row_range row o [] l h = refl
cells_at-row_range row o ((k, d) ∷ m) l h =
    let ih : cells_at o (row_range row m) ≡ cell_at row o m = cells_at-row_range row o m l h.1 in
    elim (Bool-cases (pair_eqb k (row, o))) [
      | inl same ↦
          let at : k ≡ (row, o) = (pair_key.eqb_iff k (row, o)).0 same in
          let own : is_between row k ≡ true = (between_iff row k).1 (ap (λ p. p.0) at, rw at l) in
          let here : (k.1 == o) ≡ true = (==_iff k.1 o).1 (ap (λ p. p.1) at) in
          let none_after : cells_at o (row_range row m) ≡ pos 0 =
            ih ∙ ap value_or_zero (get_of_after (row, o) m (rw (← at) (h.0))) in
          rw (same, own, here, none_after) (+ℤ-zero d)
      | inr other ↦ elim (Bool-cases (is_between row k)) [
        | inl own ↦
            let away : (k.1 == o) ≡ false = elsewhere row o k own other in
            rw (other, own, away) (zero-+ℤ (cells_at o (row_range row m)) ∙ ih)
        | inr out ↦ rw (other, out) ih
      ]
    ]

pub row_range_beyond :
    (row o : ℕ) (m : PendingMap) → 65536 ≤ o → cells_at o (row_range row m) ≡ pos 0
unfolding row_range cells_at
row_range_beyond row o [] l = refl
row_range_beyond row o ((k, d) ∷ m) l =
    ground
      (arith, between_iff row k, row_range_beyond row o m l, zero-+ℤ (cells_at o (row_range row m)))
