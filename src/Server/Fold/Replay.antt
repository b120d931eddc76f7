-- ===== src/Server/Fold/Replay.antt =====
-- The edits that a log is folded into are the difference of the databases before and after the log.
use private_eth_getbalance_w.Prelude.{
  ℕ, ◌+◌, ◌*◌, ◌/◌, ◌%◌, ◌^◌, ◌≤◌, ◌<◌, ◌≡◌, ◌≢◌, refl, sym, ◌∙◌, ap, arith, List, [], ◌∷◌, map,
}
use private_eth_getbalance_w.Prelude.{
  ok, >>=-eq-ok, ok-injective, or_panic, or_panic-eq-ok, get_elem?, some, set, replicate, ltb,
  Bool-cases, inl, inr, ◌==◌, ==_iff, ◌⊎◌,
}
use private_eth_getbalance_w.Prelude.Int.{sub_ℕ}
use private_eth_getbalance_w.Prelude.Maps.{get, insert, nat_key}
use private_eth_getbalance_w.Proto.Delta.{SegmentRowDeltas, SegmentMap, row_or_default, emit_rows}
use private_eth_getbalance_w.Proto.Delta.Ordered.{replicate-IsSegmentOrdered}
use private_eth_getbalance_w.Proto.Delta.Sums.{segments_at, value_at, entry_at, accs_at}
use private_eth_getbalance_w.Proto.Delta.Coalesce.{replicate_at, emit_at}
use private_eth_getbalance_w.Server.Fold.{
  SlotMutation, CuckooParams, fold_cells, fold_mutation, fold_loop, fold_mutations_into_row_deltas,
}
use private_eth_getbalance_w.Server.Fold.Canonical.{fold_loop-IsSegmentOrdered}
use private_eth_getbalance_w.Server.Fold.Cells.{
  upto, sub_ℕ_self, fold_cells_at, accs_at_found, accs_at_placed,
}

-- The cells of a database, by bucket and offset.
abbrev pub Database : Type 0
Database = ℕ → ℕ → ℕ

abbrev pub IsWords : Database → Type 0
IsWords cells = (bucket offset : ℕ) → cells bucket offset < 2 ^ 32

module _ (pack_slot_cells : ℕ → List ℕ → List ℕ) (params : CuckooParams) where
  -- A mutation that is the change from one database to another: its old cells are the slot's before it,
  -- its new cells the slot's after it, and no other cell changes.
  pub record IsChange (m : SlotMutation) (before after : Database) : Type 0 where
    pub old_cells :
        ((c : ℕ)
          → c < params.cells_per_slot
          → get_elem? (pack_slot_cells m.old_fingerprint m.old_value_cells) c
            ≡ some (before m.bucket (m.slot * params.cells_per_slot + c)))
    pub new_cells :
        ((c : ℕ)
          → c < params.cells_per_slot
          → get_elem? (pack_slot_cells m.new_fingerprint m.new_value_cells) c
            ≡ some (after m.bucket (m.slot * params.cells_per_slot + c)))
    pub others :
        ((bucket offset : ℕ)
          → (bucket ≢ m.bucket)
            ⊎ (offset < m.slot * params.cells_per_slot)
            ⊎ (m.slot * params.cells_per_slot + params.cells_per_slot ≤ offset)
          → after bucket offset ≡ before bucket offset)

  -- A log that leads from one database to another, over databases of words.
  pub data Replay : List SlotMutation → Database → Database → Type 0 where
    replayed :
        (before after : Database) → ((b o : ℕ) → after b o ≡ before b o) → Replay [] before after
    change :
        (m : SlotMutation) (muts : List SlotMutation) (before mid after : Database)
        → IsChange m before mid
        → IsWords mid
        → Replay muts mid after
        → Replay (m ∷ muts) before after

  -- The accumulators hold the difference of two databases.
  abbrev HoldsDifference : List SegmentMap → Database → Database → Type 0
  HoldsDifference acc start cells =
      (b o : ℕ)
      → accs_at (b / params.segment_size) (b % params.segment_size) o acc
        ≡ sub_ℕ (cells b o) (start b o)

  -- After the last cell of the slot the row is as after the mutation.
  upto_slot :
      (m : SlotMutation) (before after : Database) (o : ℕ)
      → IsChange m before after
      → upto
          (before m.bucket)
          (after m.bucket)
          (m.slot * params.cells_per_slot + params.cells_per_slot)
          o
        ≡ after m.bucket o
  upto_slot m before after o h =
      let end = m.slot * params.cells_per_slot + params.cells_per_slot in
      elim (Bool-cases (ltb o end)) [
        | inl within ↦ rw within refl
        | inr past ↦ rw past (sym (h.others m.bucket o (inr (inr (ground arith)))))
      ]

  upto_start :
      (m : SlotMutation) (before after : Database) (o : ℕ)
      → IsChange m before after
      → upto (before m.bucket) (after m.bucket) (m.slot * params.cells_per_slot + 0) o
        ≡ before m.bucket o
  upto_start m before after o h = elim (Bool-cases (ltb o (m.slot * params.cells_per_slot + 0))) [
    | inl ahead ↦ rw ahead (h.others m.bucket o (inr (inl (ground arith))))
    | inr other ↦ rw other refl
  ]

  whole_slot :
      (m : SlotMutation) (before after : Database) (o : ℕ)
      → IsChange m before after
      → upto
          (before m.bucket)
          (after m.bucket)
          (m.slot * params.cells_per_slot + (0 + params.cells_per_slot))
          o
        ≡ after m.bucket o
  whole_slot m before after o h =
      let n : 0 + params.cells_per_slot ≡ params.cells_per_slot = omega arith in
      rw n (upto_slot m before after o h)

  -- The row of a mutation's bucket before it.
  old_at :
      (m : SlotMutation) (acc : List SegmentMap) (seg : SegmentMap) (start before after : Database)
      → IsChange m before after
      → HoldsDifference acc start before
      → get_elem? acc (m.bucket / params.segment_size) ≡ some seg
      → (i : ℕ)
      → value_at i (row_or_default (get (m.bucket % params.segment_size) seg))
        ≡ sub_ℕ
            (upto (before m.bucket) (after m.bucket) (m.slot * params.cells_per_slot + 0) i)
            (start m.bucket i)
  unfolding entry_at
  old_at m acc seg start before after ch h at i =
      sym (
        accs_at_found (m.bucket / params.segment_size) (m.bucket % params.segment_size) i acc seg
          at)
      ∙ h m.bucket i
      ∙ ap (λ v. sub_ℕ v (start m.bucket i)) (sym (upto_start m before after i ch))

  fold_mutation_at :
      (m : SlotMutation) (acc acc' : List SegmentMap) (start before after : Database)
      → IsWords start
      → IsWords before
      → IsWords after
      → IsChange m before after
      → HoldsDifference acc start before
      → fold_mutation pack_slot_cells params m acc ≡ ok acc'
      → HoldsDifference acc' start after
  unfolding fold_mutation
  fold_mutation_at m acc acc' start before after w0 w1 w2 ch h e b o =
      elim (Bool-cases (params.segment_size == 0)) [
        | inl zero_size ↦ absurd (cc (rw zero_size at e))
        | inr sized ↦
            let e = rw sized at e in
            let s = m.bucket / params.segment_size in
            let r = m.bucket % params.segment_size in
            let (seg, found, e) = >>=-eq-ok (or_panic (get_elem? acc s)) _ e in
            let at = or_panic-eq-ok ⊥ (get_elem? acc s) seg found in
            let old = row_or_default (get r seg) in
            let base = m.slot * params.cells_per_slot in
            let (row, folded, whole) =
              >>=-eq-ok
                (fold_cells base (pack_slot_cells m.old_fingerprint m.old_value_cells)
                  (pack_slot_cells m.new_fingerprint m.new_value_cells) params.cells_per_slot 0 old)
                _ e in
            let last = ok-injective (set acc s (insert r row seg)) acc' whole in
            let row_at : value_at o row ≡ sub_ℕ (after m.bucket o) (start m.bucket o) =
              fold_cells_at (start m.bucket) (before m.bucket) (after m.bucket) base
                (pack_slot_cells m.old_fingerprint m.old_value_cells)
                (pack_slot_cells m.new_fingerprint m.new_value_cells) params.cells_per_slot 0 old
                row (w0 m.bucket) (w1 m.bucket) (w2 m.bucket)
                (λ i l. ch.old_cells i (omega (arith, l)))
                (λ i l. ch.new_cells i (omega (arith, l)))
                (old_at m acc seg start before after ch h at) folded o
              ∙ ap (λ v. sub_ℕ v (start m.bucket o)) (whole_slot m before after o ch) in
            rw (← last, accs_at_placed params.segment_size m.bucket b o acc seg row at)
              (elim (Bool-cases (b == m.bucket)) [
                | inl here ↦
                    let same : b ≡ m.bucket = (==_iff _ _).0 here in rw here (rw same row_at)
                | inr other ↦
                    let differs : b ≢ m.bucket = λ p. cc ((==_iff b m.bucket).1 p) in
                    rw other
                      (h b o ∙ ap (λ v. sub_ℕ v (start b o)) (sym (ch.others b o (inl differs))))
              ])
      ]

  fold_loop_at :
      (muts : List SlotMutation) (acc acc' : List SegmentMap) (start before after : Database)
      → IsWords start
      → IsWords before
      → Replay muts before after
      → HoldsDifference acc start before
      → fold_loop pack_slot_cells params muts acc ≡ ok acc'
      → HoldsDifference acc' start after
  unfolding fold_loop
  fold_loop_at [] acc acc' start before after w0 w1 (replayed b a same) h e =
      let at : acc ≡ acc' = ok-injective acc acc' e in
      λ bucket o. rw (← at) (h bucket o ∙ ap (λ v. sub_ℕ v (start bucket o)) (sym (same bucket o)))
  fold_loop_at (m ∷ muts) acc acc' start before after w0 w1 (change m' muts' b mid a ch w rest) h
        e =
      let (next, first, others) = >>=-eq-ok (fold_mutation pack_slot_cells params m acc) _ e in
      fold_loop_at muts next acc' start mid after w0 w rest
        (fold_mutation_at m acc next start before mid w0 w1 w ch h first) others

  -- The edits that a log is folded into, where the log leads from one database of words to another, are
  -- for each cell of each bucket the difference of the two: what the cell held before, and what the edits
  -- add to it, make what it holds after.
  pub fold-Replay :
      (muts : List SlotMutation) (before after : Database) (out : List SegmentRowDeltas)
      → IsWords before
      → Replay muts before after
      → fold_mutations_into_row_deltas pack_slot_cells params muts ≡ ok out
      → (b o : ℕ)
      → segments_at (b / params.segment_size) (b % params.segment_size) o out
        ≡ sub_ℕ (after b o) (before b o)
  unfolding fold_mutations_into_row_deltas
  fold-Replay muts before after out w r e b o =
      let empty = replicate params.arity [] in
      let (acc, folded, whole) = >>=-eq-ok (fold_loop pack_slot_cells params muts empty) _ e in
      let (ordered, n) =
        fold_loop-IsSegmentOrdered pack_slot_cells params muts empty acc folded
          (replicate-IsSegmentOrdered params.arity) in
      let at = ok-injective (map emit_rows acc) out whole in
      rw (← at) (
        emit_at (b / params.segment_size) (b % params.segment_size) o acc ordered
        ∙ fold_loop_at muts empty acc before before after w w r
            (λ bucket offset.
              replicate_at params.arity _ _ offset ∙ sym (sub_ℕ_self (before bucket offset)))
            folded b o)
