-- ===== src/Client/Pending/Sums.antt =====
-- The pending delta holds, for each cell, the sum of what was ingested.
use private_eth_getbalance_w.Prelude.{
  ℕ, zero, suc, ◌≡◌, refl, sym, ◌∙◌, ap, arith, List, [], ◌∷◌, Option, none, some,
}
use private_eth_getbalance_w.Prelude.{if◌then◌else◌, ◌==◌, Bool-cases, inl, inr, true, false, Bool}
use private_eth_getbalance_w.Prelude.Int.{
  ℤ, pos, negsuc, ◌+ℤ◌, +ℤ-zero, zero-+ℤ, +ℤ_assoc, checked_add, checked_add-some, is_zero,
}
use private_eth_getbalance_w.Prelude.Maps.{
  get, insert, remove, get-insert, get-remove, pair_key, pair_eqb,
}
use private_eth_getbalance_w.Proto.Delta.{Cells, SegmentRowDeltas, value_or_zero}
use private_eth_getbalance_w.Proto.Delta.Sums.{cells_at, rows_at, segments_at}
use private_eth_getbalance_w.Client.Pending.{
  PendingMap, Run, done, overflowed, panicked, ingest_cell, ingest_cells, ingest_rows,
  ingest_segments, write_vacant, write_occupied, and_then, in_front, cons_run,
}

unfoldable pub cell_at : ℕ → ℕ → PendingMap → ℤ
cell_at r o m = value_or_zero (get (r, o) m)

zero_of_is_zero : (d : ℤ) → is_zero d ≡ true → d ≡ pos 0
zero_of_is_zero d h = ground arith

-- The new entry after one delta: absent at sum 0.
abbrev pub entry_of : ℤ → Option ℤ
entry_of v = if is_zero v then none else some v

entry_value : (v : ℤ) → value_or_zero (entry_of v) ≡ v
entry_value (pos zero) = refl
entry_value (pos (suc n)) = refl
entry_value (negsuc n) = refl

pub done-injective : {S : Type 0} (a b : S) → done a ≡ done b → a ≡ b
done-injective a b e = cc

get_of_vacant :
    (j key : ℕ × ℕ) (delta : ℤ) (m m' : PendingMap)
    → get key m ≡ none
    → write_vacant key delta m ≡ done m'
    → get j m' ≡ (if pair_eqb key j then entry_of delta else get j m)
unfolding write_vacant
get_of_vacant j key delta m m' q e = elim (Bool-cases (is_zero delta)) [
  | inl zeroed ↦
      let same : m ≡ m' = done-injective m m' (rw zeroed at e) in
      rw (← same, zeroed) (vacant_reads j key m q)
  | inr kept ↦
      let same : insert key delta m ≡ m' = done-injective _ m' (rw kept at e) in
      rw (← same, kept) (get-insert j key delta m)
]
  where
    vacant_reads :
        (j key : ℕ × ℕ) (m : PendingMap)
        → get key m ≡ none
        → get j m ≡ (if pair_eqb key j then none else get j m)
    vacant_reads j key m q = elim (Bool-cases (pair_eqb key j)) [
      | inl same ↦ rw (same, ← (pair_key.eqb_iff key j).0 same) q
      | inr other ↦ rw other
    ]

get_of_occupied :
    (j key : ℕ × ℕ) (s : Option ℤ) (m m' : PendingMap)
    → write_occupied key s m ≡ done m'
    → (sum : ℤ) × (s ≡ some sum) × (get j m' ≡ (if pair_eqb key j then entry_of sum else get j m))
unfolding write_occupied
get_of_occupied j key none m m' e = cc
get_of_occupied j key (some sum) m m' e = elim (Bool-cases (is_zero sum)) [
  | inl zeroed ↦
      let same : remove key m ≡ m' = done-injective _ m' (rw zeroed at e) in
      (sum, refl, rw (← same, zeroed) (get-remove j key m))
  | inr kept ↦
      let same : insert key sum m ≡ m' = done-injective _ m' (rw kept at e) in
      (sum, refl, rw (← same, kept) (get-insert j key sum m))
]

-- After one delta an entry holds the sum, and is absent at 0; the others are as they were.
pub get_after_cell :
    (j : ℕ × ℕ) (row off : ℕ) (delta : ℤ) (m m' : PendingMap)
    → ingest_cell row off delta m ≡ done m'
    → get j m' ≡ (
        if pair_eqb (row, off) j
        then entry_of (value_or_zero (get (row, off) m) +ℤ delta)
        else get j m)
unfolding ingest_cell
get_after_cell j row off delta m m' e = go (get (row, off) m) refl e
  where
    go :
        (g : Option ℤ)
        → get (row, off) m ≡ g
        → (elim g [
          | none ↦ write_vacant (row, off) delta m
          | some v ↦ write_occupied (row, off) (checked_add v delta) m
        ])
          ≡ done m'
        → get j m' ≡ (
            if pair_eqb (row, off) j
            then entry_of (value_or_zero (get (row, off) m) +ℤ delta)
            else get j m)
    go none q h = rw (q, zero-+ℤ delta) (get_of_vacant j (row, off) delta m m' q h)
    go (some v) q h =
        let (sum, fits, reads) = get_of_occupied j (row, off) (checked_add v delta) m m' h in
        rw (q, ← checked_add-some v delta sum fits) reads

ingest_cell_at :
    (r o row off : ℕ) (delta : ℤ) (m m' : PendingMap)
    → ingest_cell row off delta m ≡ done m'
    → cell_at r o m' ≡ cell_at r o m +ℤ (if pair_eqb (row, off) (r, o) then delta else pos 0)
unfolding cell_at
ingest_cell_at r o row off delta m m' e =
    rw (get_after_cell (r, o) row off delta m m' e)
      (elim (Bool-cases (pair_eqb (row, off) (r, o))) [
        | inl same ↦
            let at : (row, off) ≡ (r, o) = (pair_key.eqb_iff (row, off) (r, o)).0 same in
            rw (same, ← at) (entry_value _)
        | inr other ↦ rw (other, +ℤ-zero)
      ])

pub and_then-done :
    {S : Type 0} (r : Run S) (f : S → Run S) {s' : S}
    → and_then r f ≡ done s'
    → (s : S) × (r ≡ done s) × (f s ≡ done s')
and_then-done (done s) f e = (s, refl, e)
and_then-done (overflowed s) f e = cc
and_then-done panicked f e = cc

pub if_same : (b : Bool) (x : ℤ) → (if b then x else x) ≡ x
if_same true x = refl
if_same false x = refl

one_cell :
    (r o row off : ℕ) (delta c x : ℤ)
    → x +ℤ (if pair_eqb (row, off) (r, o) then delta else pos 0) +ℤ (if row == r then c else pos 0)
      ≡ x +ℤ (if row == r then (if off == o then delta else pos 0) +ℤ c else pos 0)
one_cell r o row off delta c x = elim (Bool-cases (row == r)) [
  | inl same ↦ rw (same, +ℤ_assoc)
  | inr other ↦ rw other (+ℤ-zero (x +ℤ pos 0))
]

ingest_cells_at :
    (r o row : ℕ) (cells : Cells) (m m' : PendingMap)
    → ingest_cells row cells m ≡ done m'
    → cell_at r o m' ≡ cell_at r o m +ℤ (if row == r then cells_at o cells else pos 0)
unfolding ingest_cells cells_at
ingest_cells_at r o row [] m m' e = rw (if_same (row == r) (pos 0), +ℤ-zero, done-injective m m' e)
ingest_cells_at r o row ((off, delta) ∷ cells) m m' e =
    let (mid, first, rest) = and_then-done (ingest_cell row off delta m) _ e in
    ingest_cells_at r o row cells mid m' rest
    ∙ rw (ingest_cell_at r o row off delta m mid first)
        (one_cell r o row off delta (cells_at o cells) (cell_at r o m))

pub ingest_rows_at :
    (r o : ℕ) (rows : SegmentRowDeltas) (m m' : PendingMap)
    → ingest_rows rows m ≡ done m'
    → cell_at r o m' ≡ cell_at r o m +ℤ rows_at r o rows
unfolding ingest_rows rows_at
ingest_rows_at r o [] m m' e = rw (+ℤ-zero, done-injective m m' e)
ingest_rows_at r o ((row, cells) ∷ rows) m m' e =
    let (mid, first, rest) = and_then-done (ingest_cells row cells m) _ e in
    ingest_rows_at r o rows mid m' rest ∙ rw (ingest_cells_at r o row cells m mid first, +ℤ_assoc)

-- The value that the pending delta holds for a cell of a segment.
unfoldable pub pending_at : ℕ → ℕ → ℕ → List PendingMap → ℤ
pending_at s r o [] = pos 0
pending_at zero r o (m ∷ ms) = cell_at r o m
pending_at (suc s) r o (m ∷ ms) = pending_at s r o ms

pub segments-done :
    (rows : SegmentRowDeltas) (segs : List SegmentRowDeltas) (m : PendingMap)
    (ms ms' : List PendingMap)
    → ingest_segments (rows ∷ segs) (m ∷ ms) ≡ done ms'
    → (n : PendingMap) × (ns : List PendingMap) × (ingest_rows rows m ≡ done n)
      × (ingest_segments segs ms ≡ done ns)
      × (n ∷ ns ≡ ms')
unfolding ingest_segments
segments-done rows segs m ms ms' e = first (ingest_rows rows m) refl e
  where
    others :
        (x : PendingMap) (r : Run (List PendingMap))
        → cons_run x r ≡ done ms'
        → (ns : List PendingMap) × (r ≡ done ns) × (x ∷ ns ≡ ms')
    others x (done ns) h = (ns, refl, done-injective (x ∷ ns) ms' h)
    others x (overflowed ns) h = cc
    others x panicked h = cc

    first :
        (r : Run PendingMap)
        → ingest_rows rows m ≡ r
        → in_front r ms (λ n. cons_run n (ingest_segments segs ms)) ≡ done ms'
        → (n : PendingMap) × (ns : List PendingMap) × (ingest_rows rows m ≡ done n)
          × (ingest_segments segs ms ≡ done ns)
          × (n ∷ ns ≡ ms')
    first (done n) q h = let (ns, k, w) = others n (ingest_segments segs ms) h in (n, ns, q, k, w)
    first (overflowed n) q h = cc
    first panicked q h = cc

pub segments-done_nil : (ms ms' : List PendingMap) → ingest_segments [] ms ≡ done ms' → ms ≡ ms'
unfolding ingest_segments
segments-done_nil ms ms' e = done-injective ms ms' e

pub ingest_segments_at :
    (s r o : ℕ) (segs : List SegmentRowDeltas) (ms ms' : List PendingMap)
    → ingest_segments segs ms ≡ done ms'
    → pending_at s r o ms' ≡ pending_at s r o ms +ℤ segments_at s r o segs
unfolding pending_at segments_at
ingest_segments_at s r o [] ms ms' e =
    rw +ℤ-zero (ap (pending_at s r o) (sym (segments-done_nil ms ms' e)))
ingest_segments_at s r o (rows ∷ segs) [] ms' e = unfold ingest_segments in cc
ingest_segments_at zero r o (rows ∷ segs) (m ∷ ms) ms' e =
    let (n, ns, first, others, whole) = segments-done rows segs m ms ms' e in
    rw (← whole) (ingest_rows_at r o rows m n first)
ingest_segments_at (suc s) r o (rows ∷ segs) (m ∷ ms) ms' e =
    let (n, ns, first, others, whole) = segments-done rows segs m ms ms' e in
    rw (← whole) (ingest_segments_at s r o segs ms ns others)
