-- ===== src/Client/Tests.antt =====
-- Runs of the pending delta, and its theorems at concrete inputs.
use private_eth_getbalance_w.Prelude.{ℕ, ◌≡◌, ◌⊎◌, refl, List, [], ◌∷◌, All, ok, err}
use private_eth_getbalance_w.Prelude.Int.{ℤ, pos, negsuc, checked_add, ◌+ℤ◌}
use private_eth_getbalance_w.Prelude.Maps.{get, insert, remove}
use private_eth_getbalance_w.Proto.Delta.{
  BlockDelta, coalesce, check_run, add_cells, add_rows, add_segments, add_deltas, emit_rows,
  nonzero_cells,
}
use private_eth_getbalance_w.Client.Pending
use private_eth_getbalance_w.Client.Pending.{
  PendingDelta, delta_overflow, non_contiguous_delta, ingest, ingest_segments, ingest_rows,
  ingest_cells, ingest_cell, write_vacant, write_occupied,
}
use private_eth_getbalance_w.Client.Pending.Invariant.{IsPending}
use private_eth_getbalance_w.Client.Pending.Ingest.{ingest_errors, ingest_all, ingest_all-coalesce}

abbrev delta_at : ℕ → ℤ → BlockDelta
delta_at block v = record { block = block; per_segment = ((2, (0, v) ∷ []) ∷ []) ∷ [] }

abbrev fresh : PendingDelta
fresh = record { per_segment = [] ∷ []; head = 4 }

abbrev after_5 : PendingDelta
after_5 = record { per_segment = (((2, 0), pos 4) ∷ []) ∷ []; head = 5 }

-- The cell returns to 0, so its entry is removed.
abbrev after_6 : PendingDelta
after_6 = record { per_segment = [] ∷ []; head = 6 }

ingest_5 : ingest (delta_at 5 (pos 4)) fresh ≡ (after_5, ok tt)
unfolding ingest ingest_segments ingest_rows ingest_cells ingest_cell write_vacant write_occupied
    get insert
ingest_5 = refl

ingest_6 : ingest (delta_at 6 (negsuc 3)) after_5 ≡ (after_6, ok tt)
unfolding ingest ingest_segments ingest_rows ingest_cells ingest_cell write_vacant write_occupied
    get insert remove checked_add ◌+ℤ◌
ingest_6 = refl

ingest_again : ingest (delta_at 5 (pos 4)) after_5 ≡ (after_5, err (non_contiguous_delta 5 5))
unfolding ingest
ingest_again = refl

ingest_errors_example :
    (after_5.head ≡ after_5.head)
    × ((non_contiguous_delta 5 5 ≡ delta_overflow) ⊎ (after_5 ≡ after_5))
ingest_errors_example =
    ingest_errors (delta_at 5 (pos 4)) after_5 after_5 (non_contiguous_delta 5 5) ingest_again

abbrev run_5_6 : List BlockDelta
run_5_6 = delta_at 5 (pos 4) ∷ delta_at 6 (negsuc 3) ∷ []

abbrev coalesced_5_6 : BlockDelta
coalesced_5_6 = record { block = 6; per_segment = [] ∷ [] }

coalesce_5_6 : coalesce run_5_6 ≡ ok coalesced_5_6
unfolding coalesce check_run add_deltas add_segments add_rows add_cells emit_rows nonzero_cells get
    insert checked_add ◌+ℤ◌
coalesce_5_6 = refl

ingest_5_6 : ingest_all run_5_6 fresh ≡ (after_6, ok tt)
unfolding ingest_all ingest ingest_segments ingest_rows ingest_cells ingest_cell write_vacant
    write_occupied get insert remove checked_add ◌+ℤ◌
ingest_5_6 = refl

ingest_coalesced : ingest coalesced_5_6 fresh ≡ (after_6, ok tt)
unfolding ingest ingest_segments ingest_rows
ingest_coalesced = refl

fresh-IsPending : All IsPending fresh.per_segment
unfolding get
fresh-IsPending = (record { ascending = tt; nonzero = λ j h. cc }, tt)

ingest_all-coalesce_example : after_6 ≡ after_6
ingest_all-coalesce_example =
    ingest_all-coalesce (delta_at 5 (pos 4)) (delta_at 6 (negsuc 3) ∷ []) coalesced_5_6 fresh
      after_6 after_6 fresh-IsPending coalesce_5_6 ingest_5_6 ingest_coalesced

new_5_6 : ingest_all run_5_6 (Pending.new 1 4) ≡ (after_6, ok tt)
unfolding Pending.new ingest_all ingest ingest_segments ingest_rows ingest_cells ingest_cell
    write_vacant write_occupied get insert remove checked_add ◌+ℤ◌
new_5_6 = refl
