-- ===== src/Client/Pending/Invariant.antt =====
-- The maps of the pending delta are ordered and hold no zero, so they are known by their values.
use private_eth_getbalance_w.Prelude.{
  ℕ, zero, suc, ◌≡◌, ◌≢◌, refl, sym, ◌∙◌, ap, arith, List, [], ◌∷◌, Option, none, some, All, length,
  replicate,
}
use private_eth_getbalance_w.Prelude.{
  if◌then◌else◌, Bool-cases, inl, inr, true, false, Bool, Option-cases,
}
use private_eth_getbalance_w.Prelude.Int.{ℤ, pos, negsuc, ◌+ℤ◌, checked_add, is_zero}
use private_eth_getbalance_w.Prelude.Maps.{
  get, insert, remove, pair_key, pair_eqb, IsOrdered, insert-IsOrdered, remove-IsOrdered, get_ext,
}
use private_eth_getbalance_w.Proto.Delta.{Cells, SegmentRowDeltas, value_or_zero}
use private_eth_getbalance_w.Client.Pending.{
  PendingMap, done, ingest_cell, ingest_cells, ingest_rows, ingest_segments, write_vacant,
  write_occupied,
}
use private_eth_getbalance_w.Client.Pending.Sums.{
  cell_at, entry_of, get_after_cell, and_then-done, done-injective, segments-done,
  segments-done_nil, pending_at,
}

pub record IsPending (m : PendingMap) : Type 0 where
  pub ascending : IsOrdered m
  pub nonzero : (j : ℕ × ℕ) → get j m ≢ some (pos 0)

vacant-IsOrdered :
    (k : ℕ × ℕ) (d : ℤ) (m m' : PendingMap)
    → write_vacant k d m ≡ done m'
    → IsOrdered m
    → IsOrdered m'
unfolding write_vacant
vacant-IsOrdered k d m m' e o = elim (Bool-cases (is_zero d)) [
  | inl z ↦ let same : m ≡ m' = done-injective m m' (rw z at e) in rw (← same) o
  | inr n ↦
      let same : insert k d m ≡ m' = done-injective _ m' (rw n at e) in
      rw (← same) (insert-IsOrdered k d m o)
]

occupied-IsOrdered :
    (k : ℕ × ℕ) (s : Option ℤ) (m m' : PendingMap)
    → write_occupied k s m ≡ done m'
    → IsOrdered m
    → IsOrdered m'
unfolding write_occupied
occupied-IsOrdered k none m m' e o = cc
occupied-IsOrdered k (some d) m m' e o = elim (Bool-cases (is_zero d)) [
  | inl z ↦
      let same : remove k m ≡ m' = done-injective _ m' (rw z at e) in
      rw (← same) (remove-IsOrdered k m o)
  | inr n ↦
      let same : insert k d m ≡ m' = done-injective _ m' (rw n at e) in
      rw (← same) (insert-IsOrdered k d m o)
]

cell-IsOrdered :
    (row off : ℕ) (d : ℤ) (m m' : PendingMap)
    → ingest_cell row off d m ≡ done m'
    → IsOrdered m
    → IsOrdered m'
unfolding ingest_cell
cell-IsOrdered row off d m m' e o = go (get (row, off) m) e
  where
    go :
        (g : Option ℤ)
        → (elim g [
          | none ↦ write_vacant (row, off) d m
          | some v ↦ write_occupied (row, off) (checked_add v d) m
        ])
          ≡ done m'
        → IsOrdered m'
    go none h = vacant-IsOrdered (row, off) d m m' h o
    go (some v) h = occupied-IsOrdered (row, off) (checked_add v d) m m' h o

entry_of_nonzero : (v : ℤ) → entry_of v ≢ some (pos 0)
entry_of_nonzero (pos zero) = λ e. cc
entry_of_nonzero (pos (suc n)) = λ e. cc
entry_of_nonzero (negsuc n) = λ e. cc

cell-IsPending :
    (row off : ℕ) (d : ℤ) (m m' : PendingMap)
    → ingest_cell row off d m ≡ done m'
    → IsPending m
    → IsPending m'
cell-IsPending row off d m m' e p = record {
  ascending = cell-IsOrdered row off d m m' e p.ascending;
  nonzero = λ j. rw (get_after_cell j row off d m m' e) (branch j (pair_eqb (row, off) j));
}
  where
    branch :
        (j : ℕ × ℕ) (b : Bool)
        → (if b then entry_of (value_or_zero (get (row, off) m) +ℤ d) else get j m) ≢ some (pos 0)
    branch j true = entry_of_nonzero _
    branch j false = p.nonzero j

cells-IsPending :
    (row : ℕ) (cells : Cells) (m m' : PendingMap)
    → ingest_cells row cells m ≡ done m'
    → IsPending m
    → IsPending m'
unfolding ingest_cells
cells-IsPending row [] m m' e p = let same : m ≡ m' = done-injective m m' e in rw (← same) p
cells-IsPending row ((off, d) ∷ cells) m m' e p =
    let (mid, first, rest) = and_then-done (ingest_cell row off d m) _ e in
    cells-IsPending row cells mid m' rest (cell-IsPending row off d m mid first p)

rows-IsPending :
    (rows : SegmentRowDeltas) (m m' : PendingMap)
    → ingest_rows rows m ≡ done m'
    → IsPending m
    → IsPending m'
unfolding ingest_rows
rows-IsPending [] m m' e p = let same : m ≡ m' = done-injective m m' e in rw (← same) p
rows-IsPending ((row, cells) ∷ rows) m m' e p =
    let (mid, first, rest) = and_then-done (ingest_cells row cells m) _ e in
    rows-IsPending rows mid m' rest (cells-IsPending row cells m mid first p)

pub segments-IsPending :
    (segs : List SegmentRowDeltas) (ms ms' : List PendingMap)
    → ingest_segments segs ms ≡ done ms'
    → All IsPending ms
    → All IsPending ms' × (length ms' ≡ length ms)
segments-IsPending [] ms ms' e p = rw (← segments-done_nil ms ms' e) (p, refl)
segments-IsPending (rows ∷ segs) [] ms' e p = unfold ingest_segments in cc
segments-IsPending (rows ∷ segs) (m ∷ ms) ms' e p =
    let (n, ns, first, others, whole) = segments-done rows segs m ms ms' e in
    let (rest, size) = segments-IsPending segs ms ns others p.1 in
    rw (← whole) ((rows-IsPending rows m n first p.0, rest), ap suc size)

pub replicate-IsPending : (n : ℕ) → All IsPending (replicate n [])
replicate-IsPending zero = tt
replicate-IsPending (suc n) =
    (record { ascending = tt; nonzero = λ j. unfold get in λ e. cc }, replicate-IsPending n)

-- A lookup is the entry of the cell's value.
get-cell_at : (m : PendingMap) → IsPending m → (r o : ℕ) → get (r, o) m ≡ entry_of (cell_at r o m)
unfolding cell_at
get-cell_at m p r o = elim (Option-cases (get (r, o) m)) [
  | inl e ↦ rw e
  | inr (v, e) ↦ rw e (nonzero_entry v (λ z. p.nonzero (r, o) (e ∙ ap some z)))
]
  where
    nonzero_entry : (v : ℤ) → v ≢ pos 0 → some v ≡ entry_of v
    nonzero_entry (pos zero) h = absurd (h refl)
    nonzero_entry (pos (suc n)) h = refl
    nonzero_entry (negsuc n) h = refl

pending_ext :
    (m m' : PendingMap)
    → IsPending m
    → IsPending m'
    → ((r o : ℕ) → cell_at r o m ≡ cell_at r o m')
    → m ≡ m'
pending_ext m m' p p' same =
    get_ext m m' p.ascending p'.ascending
      (λ (r, o). get-cell_at m p r o ∙ ap entry_of (same r o) ∙ sym (get-cell_at m' p' r o))

-- Two pending deltas of one length with the same value in every cell are equal.
pub pendings_ext :
    (ms ms' : List PendingMap)
    → length ms ≡ length ms'
    → All IsPending ms
    → All IsPending ms'
    → ((s r o : ℕ) → pending_at s r o ms ≡ pending_at s r o ms')
    → ms ≡ ms'
unfolding pending_at
pendings_ext [] [] len p p' same = refl
pendings_ext [] (m ∷ ms') len p p' same = absurd (omega arith)
pendings_ext (m ∷ ms) [] len p p' same = absurd (omega arith)
pendings_ext (m ∷ ms) (n ∷ ns) len p p' same =
    ap₂ (pending_ext m n p.0 p'.0 (same 0))
      (pendings_ext ms ns (omega arith) p.1 p'.1 (λ s. same (suc s)))
  where
    ap₂ : m ≡ n → ms ≡ ns → m ∷ ms ≡ n ∷ ns
    ap₂ a b = cc
