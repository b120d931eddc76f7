-- ===== src/Server/Fold/Cells.antt =====
-- A mutation's cells in the row that they are folded into.
use private_eth_getbalance_w.Prelude.{
  ℕ, zero, suc, ◌+◌, ◌/◌, ◌%◌, ◌^◌, ◌<◌, ◌≡◌, ◌≢◌, refl, sym, ◌∙◌, ap, arith, List, [], ◌∷◌,
}
use private_eth_getbalance_w.Prelude.{
  ok, >>=-eq-ok, ok-injective, or_panic, or_panic-eq-ok, get_elem?, some, set_present, set, ltb,
  Bool-cases, inl, inr, ◌⊎◌, ◌==◌, ==_iff, if◌then◌else◌, true, false,
}
use private_eth_getbalance_w.Prelude.Int.{pos, sub_ℕ, is_zero}
use private_eth_getbalance_w.Prelude.Maps.{get, insert, nat_key}
use private_eth_getbalance_w.Proto.Delta.{RowMap, SegmentMap, value_or_zero}
use private_eth_getbalance_w.Proto.Delta.Sums.{
  value_at, entry_at, accs_at, value_at-insert, entry_at-insert,
}
use private_eth_getbalance_w.Server.Fold.{wrapping_add, add_entry, add_nonzero, fold_cells}
use native.Mathlib.Nat.{div-add-mod}

-- The i64 sum of two differences of words does not wrap.
wrapping_add_words :
    (a b c : ℕ)
    → a < 2 ^ 32
    → b < 2 ^ 32
    → c < 2 ^ 32
    → wrapping_add (sub_ℕ b a) (sub_ℕ c b) ≡ sub_ℕ c a
wrapping_add_words a b c h k l = ground arith

sub_ℕ_zero : (a b : ℕ) → is_zero (sub_ℕ b a) ≡ true → a ≡ b
sub_ℕ_zero a b h = ground arith

pub sub_ℕ_self : (a : ℕ) → sub_ℕ a a ≡ pos 0
sub_ℕ_self a = ground arith

-- A row of which the cells up to `base + c` are as after a mutation, and the others as before it.
abbrev pub upto : (ℕ → ℕ) → (ℕ → ℕ) → ℕ → ℕ → ℕ
upto before after n o = if ltb o n then after o else before o

add_nonzero_at :
    (start before after : ℕ → ℕ) (n o : ℕ) (m m' : RowMap)
    → ((i : ℕ) → start i < 2 ^ 32)
    → ((i : ℕ) → before i < 2 ^ 32)
    → ((i : ℕ) → after i < 2 ^ 32)
    → ((i : ℕ) → value_at i m ≡ sub_ℕ (upto before after n i) (start i))
    → add_nonzero n (sub_ℕ (after n) (before n)) m ≡ ok m'
    → value_at o m' ≡ sub_ℕ (upto before after (n + 1) o) (start o)
unfolding add_nonzero add_entry
add_nonzero_at start before after n o m m' w0 w1 w2 h e =
    elim (Bool-cases (is_zero (sub_ℕ (after n) (before n)))) [
      | inl z ↦
          let at : m ≡ m' = ok-injective m m' (rw z at e) in
          let same : before n ≡ after n = sub_ℕ_zero (before n) (after n) z in
          rw (← at) (h o ∙ ap (λ v. sub_ℕ v (start o)) (passed same))
      | inr nz ↦ elim (Bool-cases (ltb n (2 ^ 16))) [
        | inl fits ↦
            let at = ok-injective _ m' (rw fits at (rw nz at e)) in
            rw (← at, value_at-insert o n _ m) (written (Bool-cases (n == o)))
        | inr wide ↦ absurd (cc (rw wide at (rw nz at e)))
      ]
    ]
  where
    own : upto before after n n ≡ before n
    own = ground arith

    new_value :
        wrapping_add (value_or_zero (get n m)) (sub_ℕ (after n) (before n))
        ≡ sub_ℕ (after n) (start n)
    new_value =
        let found : value_or_zero (get n m) ≡ sub_ℕ (upto before after n n) (start n) =
          unfold value_at in h n in
        let prior : value_or_zero (get n m) ≡ sub_ℕ (before n) (start n) =
          found ∙ ap (λ v. sub_ℕ v (start n)) own in
        rw prior (wrapping_add_words (start n) (before n) (after n) (w0 n) (w1 n) (w2 n))

    written :
        ((n == o) ≡ true) ⊎ ((n == o) ≡ false)
        → (if n == o
            then wrapping_add (value_or_zero (get n m)) (sub_ℕ (after n) (before n))
            else value_at o m)
          ≡ sub_ℕ (upto before after (n + 1) o) (start o)
    written (inl here) =
        let at : n ≡ o = (==_iff n o).0 here in
        let last : upto before after (n + 1) n ≡ after n = ground arith in
        rw here (rw (← at) (new_value ∙ ap (λ v. sub_ℕ v (start n)) (sym last)))
    written (inr there) =
        let same : upto before after n o ≡ upto before after (n + 1) o = ground arith in
        rw there (h o ∙ ap (λ v. sub_ℕ v (start o)) same)

    passed : before n ≡ after n → upto before after n o ≡ upto before after (n + 1) o
    passed same = elim (Bool-cases (n == o)) [
      | inl here ↦ let at : n ≡ o = (==_iff n o).0 here in rw (← at) (ground arith)
      | inr there ↦ ground arith
    ]

-- The cells of a slot, from the one at `base + c` on.
pub fold_cells_at :
    (start before after : ℕ → ℕ) (base : ℕ) (old_buf new_buf : List ℕ) (left c : ℕ) (m m' : RowMap)
    → ((i : ℕ) → start i < 2 ^ 32)
    → ((i : ℕ) → before i < 2 ^ 32)
    → ((i : ℕ) → after i < 2 ^ 32)
    → ((i : ℕ) → i < c + left → get_elem? old_buf i ≡ some (before (base + i)))
    → ((i : ℕ) → i < c + left → get_elem? new_buf i ≡ some (after (base + i)))
    → ((i : ℕ) → value_at i m ≡ sub_ℕ (upto before after (base + c) i) (start i))
    → fold_cells base old_buf new_buf left c m ≡ ok m'
    → (o : ℕ) → value_at o m' ≡ sub_ℕ (upto before after (base + (c + left)) o) (start o)
unfolding fold_cells
fold_cells_at start before after base old_buf new_buf zero c m m' w0 w1 w2 p q h e o =
    let at : m ≡ m' = ok-injective m m' e in
    let end : c + 0 ≡ c = omega arith in rw (← at, end) (h o)
fold_cells_at start before after base old_buf new_buf (suc left) c m m' w0 w1 w2 p q h e o =
    let (new_cell, n, e) = >>=-eq-ok (or_panic (get_elem? new_buf c)) _ e in
    let (old_cell, k, e) = >>=-eq-ok (or_panic (get_elem? old_buf c)) _ e in
    let (row, added, rest) = >>=-eq-ok (add_nonzero (base + c) (sub_ℕ new_cell old_cell) m) _ e in
    let new_at : new_cell ≡ after (base + c) =
      cc (or_panic-eq-ok ⊥ (get_elem? new_buf c) new_cell n, q c (omega arith)) in
    let old_at : old_cell ≡ before (base + c) =
      cc (or_panic-eq-ok ⊥ (get_elem? old_buf c) old_cell k, p c (omega arith)) in
    let more : c + 1 + left ≡ c + suc left = omega arith in
    let next : base + c + 1 ≡ base + (c + 1) = omega arith in
    let whole =
      fold_cells_at start before after base old_buf new_buf left (c + 1) row m' w0 w1 w2
        (λ i l. p i (omega (arith, l))) (λ i l. q i (omega (arith, l)))
        (λ i. rw (← next) (
          add_nonzero_at start before after (base + c) i m row w0 w1 w2 h
            (rw (← new_at, ← old_at) added)))
        rest o in
    rw more at whole

pub accs_at_found :
    (j r o : ℕ) (acc : List SegmentMap) (seg : SegmentMap)
    → get_elem? acc j ≡ some seg
    → accs_at j r o acc ≡ entry_at r o seg
unfolding accs_at
accs_at_found j r o [] seg h = cc
accs_at_found zero r o (m ∷ ms) seg h = let at : m ≡ seg = cc in rw at refl
accs_at_found (suc j) r o (m ∷ ms) seg h = accs_at_found j r o ms seg h

pub accs_at-set :
    (i j r o : ℕ) (acc : List SegmentMap) (seg : SegmentMap)
    → j ≢ i
    → accs_at j r o (set acc i seg) ≡ accs_at j r o acc
unfolding accs_at
accs_at-set i j r o [] seg ne = refl
accs_at-set zero zero r o (m ∷ ms) seg ne = absurd (ne refl)
accs_at-set zero (suc j) r o (m ∷ ms) seg ne = refl
accs_at-set (suc i) zero r o (m ∷ ms) seg ne = refl
accs_at-set (suc i) (suc j) r o (m ∷ ms) seg ne = accs_at-set i j r o ms seg (λ e. ne (ap suc e))

-- A bucket is known by its segment and its row there.
pub bucket_of : (size a b : ℕ) → a / size ≡ b / size → a % size ≡ b % size → a ≡ b
bucket_of size a b h k = sym (div-add-mod a size) ∙ rw (h, k) refl ∙ div-add-mod b size

-- A row put back into its segment is read at its bucket, and nowhere else.
pub accs_at_placed :
    (size k b o : ℕ) (acc : List SegmentMap) (seg : SegmentMap) (row : RowMap)
    → get_elem? acc (k / size) ≡ some seg
    → accs_at (b / size) (b % size) o (set acc (k / size) (insert (k % size) row seg))
      ≡ (if b == k then value_at o row else accs_at (b / size) (b % size) o acc)
accs_at_placed size k b o acc seg row at =
    let seg' = insert (k % size) row seg in
    let there =
      accs_at_found (k / size) (b % size) o (set acc (k / size) seg') seg'
        (set_present acc (k / size) seg' seg at) in
    elim (Bool-cases (b == k)) [
      | inl here ↦
          let same : b ≡ k = (==_iff b k).0 here in
          let own : (k % size == k % size) ≡ true = (==_iff _ _).1 refl in
          rw here (
            rw same (
              accs_at_found (k / size) (k % size) o (set acc (k / size) seg') seg'
                (set_present acc (k / size) seg' seg at)
              ∙ entry_at-insert (k % size) o (k % size) row seg
              ∙ rw own refl))
      | inr other ↦ rw other (elim (Bool-cases (b / size == k / size)) [
        | inl segment ↦
            let same : b / size ≡ k / size = (==_iff _ _).0 segment in
            let differs : (k % size == b % size) ≡ false =
              not_same size k b same (Bool-cases (k % size == b % size)) other in
            rw same (
              there
              ∙ entry_at-insert (b % size) o (k % size) row seg
              ∙ rw differs (sym (accs_at_found (k / size) (b % size) o acc seg at)))
        | inr elsewhere ↦
            accs_at-set (k / size) (b / size) (b % size) o acc seg'
              (λ e. cc ((==_iff (b / size) (k / size)).1 e))
      ])
    ]
  where
    not_same :
        (size k b : ℕ)
        → b / size ≡ k / size
        → ((k % size == b % size) ≡ true) ⊎ ((k % size == b % size) ≡ false)
        → (b == k) ≡ false
        → (k % size == b % size) ≡ false
    not_same size k b e (inl rows) other =
        let same : b ≡ k = bucket_of size b k e (sym ((==_iff _ _).0 rows)) in
        absurd (cc ((==_iff b k).1 same))
    not_same size k b e (inr rows) other = rows
