-- ===== src/Server/Tests.antt =====
-- Runs of the delta ring, and its theorems at concrete inputs.
use private_eth_getbalance_w.Prelude.{
  ℕ, ◌-◌, ◌<◌, ◌≤◌, ◌≡◌, ◌↔◌, refl, arith, List, [], ◌∷◌, none, some, length, drop, ok,
}
use private_eth_getbalance_w.Prelude.Int.{ℤ, pos, negsuc, checked_add, ◌+ℤ◌}
use private_eth_getbalance_w.Prelude.Maps.{get, insert}
use private_eth_getbalance_w.Proto.Delta.{
  BlockDelta, coalesce, check_run, add_cells, add_rows, add_segments, add_deltas, emit_rows,
  nonzero_cells,
}
use private_eth_getbalance_w.Proto.Delta.Total.{mass, mass_rows, mass_cells, mass_segments}
use private_eth_getbalance_w.Server.DeltaRing.{DeltaRing, new, push, select, range}
use private_eth_getbalance_w.Server.DeltaRing.Window.{ring_window}
use private_eth_getbalance_w.Server.DeltaRing.Range.{range_iff}
use mathlib.Core.List.{foldl}

abbrev delta_at : ℕ → ℤ → BlockDelta
delta_at block v = record { block = block; per_segment = ((2, (0, v) ∷ []) ∷ []) ∷ [] }

abbrev three : List BlockDelta
three = delta_at 5 (pos 4) ∷ delta_at 6 (negsuc 0) ∷ delta_at 7 (pos 2) ∷ []

abbrev ring_of_two : DeltaRing
ring_of_two = record { capacity = 2; buf = delta_at 6 (negsuc 0) ∷ delta_at 7 (pos 2) ∷ [] }

new_two : new 2 ≡ ok (record { capacity = 2; buf = [] })
unfolding new
new_two = refl

pushed : foldl (λ s d. push d s) (record { capacity = 2; buf = [] }) three ≡ ring_of_two
unfolding push
pushed = refl

ring_window_example :
    (foldl (λ s d. push d s) (record { capacity = 2; buf = [] }) three).buf
    ≡ drop (length three - 2) three
ring_window_example = ring_window 2 (record { capacity = 2; buf = [] }) three new_two

range_5_7 : range 5 7 ring_of_two ≡ some (delta_at 7 (pos 1))
unfolding range select coalesce check_run add_deltas add_segments add_rows add_cells emit_rows
    nonzero_cells get insert checked_add ◌+ℤ◌
range_5_7 = refl

range_too_old : range 4 7 ring_of_two ≡ none
unfolding range select
range_too_old = refl

mass_of_two : mass (select 5 7 ring_of_two.buf) ≡ 3
unfolding mass mass_rows mass_cells mass_segments select
mass_of_two = refl

range_iff_example :
    ((d : BlockDelta) × (range 5 7 ring_of_two ≡ some d)) ↔ ((5 < 7) × (6 ≤ 6) × (7 < 8))
range_iff_example =
    range_iff 5 7 6 1 ring_of_two (refl, refl, (refl, refl, tt)) (omega arith) (omega arith)
      (omega (arith, mass_of_two))
