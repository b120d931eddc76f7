-- ===== src/Client/Pending/Rows.antt =====
-- `as_row_deltas` lists the pending edits row by row: for each cell they sum to what is pending, and there
-- are none only where nothing is pending.
use private_eth_getbalance_w.Prelude.{
  ℕ, ◌≡◌, ◌≢◌, refl, sym, ◌∙◌, ap, arith, [], ◌∷◌, ◌++◌, if◌then◌else◌, ◌==◌, ==_iff, Bool-cases,
  inl, inr,
}
use private_eth_getbalance_w.Prelude.Int.{ℤ, pos, ◌+ℤ◌, +ℤ-zero, zero-+ℤ, +ℤ_assoc}
use private_eth_getbalance_w.Prelude.Maps.{get, IsOrdered, pair_key, pair_eqb, get_of_after}
use private_eth_getbalance_w.Proto.Delta.{Cells, SegmentRowDeltas, value_or_zero}
use private_eth_getbalance_w.Proto.Delta.Sums.{cells_at, rows_at}
use private_eth_getbalance_w.Client.Pending.{PendingMap, push_entry, group_rows, as_row_deltas}
use private_eth_getbalance_w.Client.Pending.Sums.{cell_at}

-- What an entry adds to cell `o` of row `r`.
abbrev part : ℕ → ℕ → ℕ → ℕ → ℤ → ℤ
part r o row off d = if pair_eqb (row, off) (r, o) then d else pos 0

-- The sum over the entries of a map.
unfoldable entries_at : ℕ → ℕ → PendingMap → ℤ
entries_at r o [] = pos 0
entries_at r o ((k, d) ∷ m) = part r o k.0 k.1 d +ℤ entries_at r o m

cells_at-append :
    (o off : ℕ) (d : ℤ) (cells : Cells)
    → cells_at o (cells ++ ((off, d) ∷ [])) ≡ cells_at o cells +ℤ (if off == o then d else pos 0)
unfolding cells_at
cells_at-append o off d [] = +ℤ-zero _ ∙ sym (zero-+ℤ _)
cells_at-append o off d (c ∷ cells) = rw (cells_at-append o off d cells) (sym (+ℤ_assoc _ _ _))

-- A row of one cell.
single_at : (r o row off : ℕ) (d : ℤ) → rows_at r o ((row, (off, d) ∷ []) ∷ []) ≡ part r o row off d
unfolding rows_at cells_at
single_at r o row off d = elim (Bool-cases (row == r)) [
  | inl own ↦ rw own (+ℤ-zero _ ∙ +ℤ-zero _)
  | inr other ↦ rw other (+ℤ-zero _)
]

-- A cell that joins a row.
joined_at :
    (r o row off : ℕ) (d : ℤ) (cells : Cells)
    → rows_at r o ((row, cells ++ ((off, d) ∷ [])) ∷ [])
      ≡ rows_at r o ((row, cells) ∷ []) +ℤ part r o row off d
unfolding rows_at
joined_at r o row off d cells = elim (Bool-cases (row == r)) [
  | inl own ↦ rw own (
      +ℤ-zero _
      ∙ cells_at-append o off d cells
      ∙ ap (λ t. t +ℤ (if off == o then d else pos 0)) (sym (+ℤ-zero (cells_at o cells))))
  | inr other ↦ rw other (sym (+ℤ-zero _))
]

-- A row that is added.
added_at :
    (r o : ℕ) (x y : ℕ × Cells)
    → rows_at r o (x ∷ (y ∷ [])) ≡ rows_at r o (x ∷ []) +ℤ rows_at r o (y ∷ [])
unfolding rows_at
added_at r o x y = ap (λ t. t +ℤ rows_at r o (y ∷ [])) (sym (+ℤ-zero _))

push_entry_at :
    (r o row off : ℕ) (d : ℤ) (out : SegmentRowDeltas)
    → rows_at r o (push_entry row off d out) ≡ rows_at r o out +ℤ part r o row off d
unfolding push_entry rows_at
push_entry_at r o row off d [] = single_at r o row off d ∙ sym (zero-+ℤ _)
push_entry_at r o row off d ((last_row, cells) ∷ []) = elim (Bool-cases (last_row == row)) [
  | inl same ↦
      let at : last_row ≡ row = (==_iff last_row row).0 same in
      rw same (rw (← at) (joined_at r o last_row off d cells))
  | inr differs ↦ rw differs (
      added_at r o (last_row, cells) (row, (off, d) ∷ [])
      ∙ ap (λ t. rows_at r o ((last_row, cells) ∷ []) +ℤ t) (single_at r o row off d))
]
push_entry_at r o row off d (x ∷ (y ∷ rows)) =
    ap (λ t. (if x.0 == r then cells_at o x.1 else pos 0) +ℤ t)
      (push_entry_at r o row off d (y ∷ rows))
    ∙ sym (+ℤ_assoc _ _ _)

group_rows_at :
    (r o : ℕ) (m : PendingMap) (out : SegmentRowDeltas)
    → rows_at r o (group_rows out m) ≡ rows_at r o out +ℤ entries_at r o m
unfolding group_rows entries_at
group_rows_at r o [] out = sym (+ℤ-zero _)
group_rows_at r o ((k, d) ∷ m) out =
    group_rows_at r o m (push_entry k.0 k.1 d out)
    ∙ rw (push_entry_at r o k.0 k.1 d out) (+ℤ_assoc _ _ _)

entries_at_ordered : (r o : ℕ) (m : PendingMap) → IsOrdered m → entries_at r o m ≡ cell_at r o m
unfolding entries_at cell_at get
entries_at_ordered r o [] h = refl
entries_at_ordered r o ((k, d) ∷ m) h =
    let rest = entries_at_ordered r o m h.1 in
    elim (Bool-cases (pair_eqb k (r, o))) [
      | inl same ↦
          let at : k ≡ (r, o) = (pair_key.eqb_iff k (r, o)).0 same in
          let none_after : entries_at r o m ≡ pos 0 =
            rest ∙ ap value_or_zero (get_of_after (r, o) m (rw (← at) (h.0))) in
          rw (same, none_after) (+ℤ-zero d)
      | inr other ↦ rw other (zero-+ℤ (entries_at r o m) ∙ rest)
    ]

-- For each cell of a map in order, the edits of its rows sum to what is pending.
pub as_row_deltas_at :
    (r o : ℕ) (m : PendingMap) → IsOrdered m → rows_at r o (as_row_deltas m) ≡ cell_at r o m
unfolding as_row_deltas rows_at
as_row_deltas_at r o m h =
    group_rows_at r o m [] ∙ zero-+ℤ (entries_at r o m) ∙ entries_at_ordered r o m h

push_entry-ne-nil : (row off : ℕ) (d : ℤ) (out : SegmentRowDeltas) → push_entry row off d out ≢ []
unfolding push_entry
push_entry-ne-nil row off d [] = cc
push_entry-ne-nil row off d ((last_row, cells) ∷ []) = ground arith
push_entry-ne-nil row off d (x ∷ (y ∷ rows)) = cc

group_rows-ne-nil : (m : PendingMap) (out : SegmentRowDeltas) → out ≢ [] → group_rows out m ≢ []
unfolding group_rows
group_rows-ne-nil [] out h = h
group_rows-ne-nil ((k, d) ∷ m) out h =
    group_rows-ne-nil m (push_entry k.0 k.1 d out) (push_entry-ne-nil k.0 k.1 d out)

pub as_row_deltas-ne-nil : (k : ℕ × ℕ) (d : ℤ) (m : PendingMap) → as_row_deltas ((k, d) ∷ m) ≢ []
unfolding as_row_deltas group_rows
as_row_deltas-ne-nil k d m =
    group_rows-ne-nil m (push_entry k.0 k.1 d []) (push_entry-ne-nil k.0 k.1 d [])
