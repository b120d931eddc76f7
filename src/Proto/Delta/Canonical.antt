-- ===== src/Proto/Delta/Canonical.antt =====
-- Canonical segments: what `coalesce` emits, and what determines them.
use private_eth_getbalance_w.Prelude.{ℕ, ◌≡◌, ◌≢◌, refl, subst, ◌∙◌, arith, [], ◌∷◌, zero, suc, All}
use private_eth_getbalance_w.Prelude.{Bool-cases, inl, inr, ◌==◌, if◌then◌else◌, ltb, ==_iff, true}
use private_eth_getbalance_w.Prelude.Int.{ℤ, pos, negsuc, ◌+ℤ◌, +ℤ-zero, zero-+ℤ}
use private_eth_getbalance_w.Prelude.Maps.{get, IsOrdered, IsAfter, nat_key}
use private_eth_getbalance_w.Proto.Delta.{
  Cells, SegmentRowDeltas, RowMap, SegmentMap, nonzero_cells, push_row, emit_rows,
}
use private_eth_getbalance_w.Proto.Delta.Sums.{cells_at, rows_at, value_at, entry_at}
use private_eth_getbalance_w.Proto.Delta.Ordered.{IsSegmentOrdered}

-- Offsets ascend, no cell is 0, and there is a cell.
pub record IsRow (cells : Cells) : Type 0 where
  pub ascending : IsOrdered cells
  pub nonzero : All (λ c. c.1 ≢ pos 0) cells
  pub inhabited : cells ≢ []

-- Rows ascend, and each is as above.
pub record IsCanonical (rows : SegmentRowDeltas) : Type 0 where
  pub ascending : IsOrdered rows
  pub each : All (λ r. IsRow r.1) rows

pub cells_at_after : (o : ℕ) (cells : Cells) → IsAfter o cells → cells_at o cells ≡ pos 0
unfolding cells_at
cells_at_after o [] h = refl
cells_at_after o ((p, d) ∷ cells) h =
    ground (arith, cells_at_after o cells h.1, zero-+ℤ (cells_at o cells))

pub cells_at_head :
    (o : ℕ) (d : ℤ) (cells : Cells) → IsAfter o cells → cells_at o ((o, d) ∷ cells) ≡ d
unfolding cells_at
cells_at_head o d cells h = ground (arith, cells_at_after o cells h, +ℤ-zero d)

pub cells_at_ordered : (o : ℕ) (m : RowMap) → IsOrdered m → cells_at o m ≡ value_at o m
unfolding cells_at value_at get
cells_at_ordered o [] h = refl
cells_at_ordered o ((p, d) ∷ m) h = elim (Bool-cases (p == o)) [
  | inl same ↦
      let at : p ≡ o = (==_iff p o).0 same in
      rw (same, cells_at_after o m (subst (λ x. IsAfter x m) at h.0)) (+ℤ-zero d)
  | inr other ↦ rw (other, zero-+ℤ) (cells_at_ordered o m h.1)
]

nonzero_cells_at : (o : ℕ) (m : RowMap) → cells_at o (nonzero_cells m) ≡ cells_at o m
unfolding cells_at nonzero_cells
nonzero_cells_at o [] = refl
nonzero_cells_at o ((p, pos zero) ∷ m) =
    ground (arith, nonzero_cells_at o m, zero-+ℤ (cells_at o m))
nonzero_cells_at o ((p, pos (suc n)) ∷ m) = rw (nonzero_cells_at o m)
nonzero_cells_at o ((p, negsuc n) ∷ m) = rw (nonzero_cells_at o m)

push_row_at :
    (r o row : ℕ) (cells : Cells) (rows : SegmentRowDeltas)
    → rows_at r o (push_row row cells rows)
      ≡ (if row == r then cells_at o cells else pos 0) +ℤ rows_at r o rows
unfolding rows_at cells_at
push_row_at r o row [] rows = ground (arith, zero-+ℤ (rows_at r o rows))
push_row_at r o row (c ∷ cells) rows = refl

emit_rows_sum : (r o : ℕ) (m : SegmentMap) → rows_at r o (emit_rows m) ≡ rows_at r o m
unfolding rows_at emit_rows
emit_rows_sum r o [] = refl
emit_rows_sum r o ((row, cells) ∷ m) =
    push_row_at r o row (nonzero_cells cells) (emit_rows m)
    ∙ rw (nonzero_cells_at o cells, emit_rows_sum r o m)

pub rows_at_after : (r o : ℕ) (rows : SegmentRowDeltas) → IsAfter r rows → rows_at r o rows ≡ pos 0
unfolding rows_at
rows_at_after r o [] h = refl
rows_at_after r o ((p, cells) ∷ rows) h =
    ground (arith, rows_at_after r o rows h.1, zero-+ℤ (rows_at r o rows))

rows_at_ordered : (r o : ℕ) (m : SegmentMap) → IsSegmentOrdered m → rows_at r o m ≡ entry_at r o m
unfolding rows_at entry_at get
rows_at_ordered r o [] h = unfold value_at get in refl
rows_at_ordered r o ((p, cells) ∷ m) (h, each) = elim (Bool-cases (p == r)) [
  | inl same ↦
      let at : p ≡ r = (==_iff p r).0 same in
      rw (same, rows_at_after r o m (subst (λ x. IsAfter x m) at h.0))
        (+ℤ-zero _ ∙ cells_at_ordered o cells each.0)
  | inr other ↦ rw (other, zero-+ℤ) (rows_at_ordered r o m (h.1, each.1))
]

-- Emitting keeps the value of every cell.
pub emit_rows_at :
    (r o : ℕ) (m : SegmentMap) → IsSegmentOrdered m → rows_at r o (emit_rows m) ≡ entry_at r o m
emit_rows_at r o m h = emit_rows_sum r o m ∙ rows_at_ordered r o m h

nonzero_cells-IsAfter : (o : ℕ) (m : RowMap) → IsAfter o m → IsAfter o (nonzero_cells m)
unfolding nonzero_cells
nonzero_cells-IsAfter o [] h = tt
nonzero_cells-IsAfter o ((p, d) ∷ m) h = ground (arith, nonzero_cells-IsAfter o m h.1)

nonzero_cells-IsOrdered : (m : RowMap) → IsOrdered m → IsOrdered (nonzero_cells m)
unfolding nonzero_cells
nonzero_cells-IsOrdered [] h = tt
nonzero_cells-IsOrdered ((p, d) ∷ m) h =
    ground (arith, nonzero_cells-IsOrdered m h.1, nonzero_cells-IsAfter p m h.0)

nonzero_cells_nonzero : (m : RowMap) → All (λ c. c.1 ≢ pos 0) (nonzero_cells m)
unfolding nonzero_cells
nonzero_cells_nonzero [] = tt
nonzero_cells_nonzero ((p, pos zero) ∷ m) = nonzero_cells_nonzero m
nonzero_cells_nonzero ((p, pos (suc n)) ∷ m) = ((λ e. cc), nonzero_cells_nonzero m)
nonzero_cells_nonzero ((p, negsuc n) ∷ m) = ((λ e. cc), nonzero_cells_nonzero m)

push_row-IsAfter :
    (k row : ℕ) (cells : Cells) (rows : SegmentRowDeltas)
    → ltb k row ≡ true
    → IsAfter k rows
    → IsAfter k (push_row row cells rows)
push_row-IsAfter k row [] rows h a = a
push_row-IsAfter k row (c ∷ cells) rows h a = (h, a)

emit_rows-IsAfter : (k : ℕ) (m : SegmentMap) → IsAfter k m → IsAfter k (emit_rows m)
unfolding emit_rows
emit_rows-IsAfter k [] h = tt
emit_rows-IsAfter k ((row, cells) ∷ m) h =
    push_row-IsAfter k row (nonzero_cells cells) (emit_rows m) h.0 (emit_rows-IsAfter k m h.1)

push_row-IsCanonical :
    (row : ℕ) (cells : Cells) (rows : SegmentRowDeltas)
    → IsOrdered cells
    → All (λ c. c.1 ≢ pos 0) cells
    → IsAfter row rows
    → IsCanonical rows
    → IsCanonical (push_row row cells rows)
push_row-IsCanonical row [] rows o n a c = c
push_row-IsCanonical row (cell ∷ cells) rows o n a c = record {
  ascending = (a, c.ascending);
  each = (record { ascending = o; nonzero = n; inhabited = λ e. cc }, c.each);
}

pub emit_rows-IsCanonical : (m : SegmentMap) → IsSegmentOrdered m → IsCanonical (emit_rows m)
unfolding emit_rows
emit_rows-IsCanonical [] h = record { ascending = tt; each = tt }
emit_rows-IsCanonical ((row, cells) ∷ m) (h, each) =
    push_row-IsCanonical row (nonzero_cells cells) (emit_rows m)
      (nonzero_cells-IsOrdered cells each.0) (nonzero_cells_nonzero cells)
      (emit_rows-IsAfter row m h.0) (emit_rows-IsCanonical m (h.1, each.1))
