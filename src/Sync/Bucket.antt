-- ===== src/Sync/Bucket.antt =====
-- The edits of a bucket, written over its cells by `correct_cells`.
use private_eth_getbalance_w.Prelude.{
  ℕ, zero, suc, ◌≤◌, ◌<◌, ◌≡◌, ◌≢◌, refl, sym, ◌∙◌, arith, List, [], ◌∷◌, ok, some, All, length,
  get_elem?, All-get_elem?, found_within, get_or, set, get_elem?_total, Bool-cases, inl, inr, ltb,
  ◌==◌, ==_iff, length-set, set_present, get_elem?-set_ne,
}
use private_eth_getbalance_w.Prelude.Int.{ℤ, pos, sub_ℕ, ◌+ℤ◌, zero-+ℤ}
use private_eth_getbalance_w.Prelude.Maps.{IsOrdered, nat_key}
use private_eth_getbalance_w.Proto.Delta.{Cells}
use private_eth_getbalance_w.Proto.Delta.Sums.{cells_at}
use private_eth_getbalance_w.Proto.Delta.Canonical.{cells_at_after, cells_at_head}
use private_eth_getbalance_w.Client.Pending.{PendingMap, row_range}
use private_eth_getbalance_w.Client.Pending.Sums.{cell_at}
use private_eth_getbalance_w.Client.Pending.Invariant.{IsPending}
use private_eth_getbalance_w.Client.Query.{correct_cells, corrected_cell}
use private_eth_getbalance_w.Sync.Row.{
  row_range-IsOrdered, row_range_nonzero, cells_at-row_range, row_range_beyond,
}

list_ext :
    (xs ys : List ℕ)
    → length xs ≡ length ys
    → ((o x y : ℕ) → get_elem? xs o ≡ some x → get_elem? ys o ≡ some y → x ≡ y)
    → xs ≡ ys
list_ext [] [] n h = refl
list_ext [] (y ∷ ys) n h = absurd (omega (arith, n))
list_ext (x ∷ xs) [] n h = absurd (omega (arith, n))
list_ext (x ∷ xs) (y ∷ ys) n h =
    let first : x ≡ y = h 0 x y refl refl in
    let rest : xs ≡ ys = list_ext xs ys (omega (arith, n)) (λ o. h (suc o)) in cc

sub_ℕ_zero : (a b : ℕ) → sub_ℕ b a ≡ pos 0 → a ≡ b
sub_ℕ_zero a b h = ground arith

add_back : (p h : ℕ) → pos p +ℤ sub_ℕ h p ≡ pos h
unfolding ◌+ℤ◌
add_back p h = ground arith

corrected_value : (bound h : ℕ) → h < bound → corrected_cell bound (pos h) ≡ some h
corrected_value bound h l = ground arith

zero_difference : (h : ℕ) → pos 0 ≡ sub_ℕ h h
zero_difference h = ground arith

other_edit : (k off : ℕ) (d : ℤ) (es : Cells) → off ≢ k → cells_at k ((off, d) ∷ es) ≡ cells_at k es
unfolding cells_at
other_edit k off d es ne = elim (Bool-cases (off == k)) [
  | inl same ↦ absurd (ne ((==_iff off k).0 same))
  | inr differs ↦ rw differs (zero-+ℤ (cells_at k es))
]

-- Edits in ascending order without a zero, which are the difference of two rows, lead from one to the other.
correct_cells_lem :
    (bound j row : ℕ) (es : Cells) (pinned head : List ℕ)
    → IsOrdered es
    → All (λ e. e.1 ≢ pos 0) es
    → length pinned ≡ length head
    → All (λ v. v < bound) head
    → ((o : ℕ) → length pinned ≤ o → cells_at o es ≡ pos 0)
    → ((o p h : ℕ)
        → get_elem? pinned o ≡ some p
        → get_elem? head o ≡ some h
        → cells_at o es ≡ sub_ℕ h p)
    → correct_cells bound j row es pinned ≡ ok head
unfolding correct_cells
correct_cells_lem bound j row [] pinned head o z n small beyond each =
    let same : pinned ≡ head =
      list_ext pinned head n
        (λ o p h a e. sub_ℕ_zero p h (sym (each o p h a e) ∙ unfold cells_at in refl)) in
    rw same refl
correct_cells_lem bound j row ((off, d) ∷ es) pinned head o z n small beyond each =
    let here : cells_at off ((off, d) ∷ es) ≡ d = cells_at_head off d es o.0 in
    let inside : off < length pinned = elim (Bool-cases (ltb off (length pinned))) [
      | inl within ↦ ground arith
      | inr past ↦ absurd (z.0 (sym here ∙ beyond off (ground arith)))
    ] in
    let (p, at) = get_elem?_total pinned off inside in
    let (h, above) = get_elem?_total head off (omega (arith, n)) in
    let edit : d ≡ sub_ℕ h p = sym here ∙ each off p h at above in
    let sum : pos p +ℤ d ≡ pos h = rw edit (add_back p h) in
    let stored : corrected_cell bound (pos h) ≡ some h =
      corrected_value bound h (All-get_elem? (λ v. v < bound) head off h small above) in
    let rest =
      correct_cells_lem bound j row es (set pinned off h) head o.1 z.1 (length-set pinned off h ∙ n)
        small
        (λ k past.
          sym (other_edit k off d es (λ e. omega (arith, e, past, length-set pinned off h)))
          ∙ beyond k (omega (arith, past, length-set pinned off h)))
        (λ k. elim (Bool-cases (off == k)) [
          | inl same ↦
              let same : off ≡ k = (==_iff off k).0 same in
              rw (← same) (λ q g a e.
                let old : q ≡ h = cc (set_present pinned off h p at) in
                let new : g ≡ h = cc in
                rw (old, new) (cells_at_after off es o.0 ∙ zero_difference h))
          | inr differs ↦ λ q g a e.
              sym (other_edit k off d es (λ e. cc ((==_iff off k).1 e)))
              ∙ each k q g (sym (get_elem?-set_ne pinned h (λ e. cc ((==_iff off k).1 e))) ∙ a) e
        ]) in
    rw (at, sum, stored) rest

get_or_found : (xs : List ℕ) (o x : ℕ) → get_elem? xs o ≡ some x → get_or xs o 0 ≡ x
get_or_found [] o x e = cc
get_or_found (y ∷ xs) zero x e = cc
get_or_found (y ∷ xs) (suc o) x e = get_or_found xs o x e

get_or_beyond : (xs : List ℕ) (o : ℕ) → length xs ≤ o → get_or xs o 0 ≡ 0
get_or_beyond [] o h = refl
get_or_beyond (x ∷ xs) zero h = absurd (omega (arith, h))
get_or_beyond (x ∷ xs) (suc o) h = get_or_beyond xs o (omega (arith, h))

-- The edits of a row that a pending map holds as the difference of two buckets lead from one to the other.
pub correct_cells-row_range :
    (bound j row : ℕ) (m : PendingMap) (pinned now : List ℕ)
    → IsPending m
    → ((o : ℕ) → cell_at row o m ≡ sub_ℕ (get_or now o 0) (get_or pinned o 0))
    → length pinned ≡ length now
    → length now ≤ 65536
    → All (λ v. v < bound) now
    → correct_cells bound j row (row_range row m) pinned ≡ ok now
correct_cells-row_range bound j row m pinned now h each n size small =
    correct_cells_lem bound j row (row_range row m) pinned now
      (row_range-IsOrdered row m h.ascending) (row_range_nonzero row m h) n small
      (λ o past. elim (Bool-cases (ltb o 65536)) [
        | inl inside ↦
            cells_at-row_range row o m (ground arith) h.ascending
            ∙ each o
            ∙ rw (get_or_beyond now o (omega (arith, n, past)), get_or_beyond pinned o past) refl
        | inr outside ↦ row_range_beyond row o m (ground arith)
      ])
      (λ o p v at above.
        cells_at-row_range row o m (omega (arith, found_within now o v above, size)) h.ascending
        ∙ each o
        ∙ rw (get_or_found pinned o p at, get_or_found now o v above) refl)
