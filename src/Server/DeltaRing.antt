-- ===== src/Server/DeltaRing.antt =====
-- crates/risepir-server/src/delta_ring.rs: the sliding window of the most recent block deltas.
pub mod Window
pub mod Range
use private_eth_getbalance_w.Prelude.{
  ℕ, ◌+◌, ◌-◌, ◌<◌, ◌≤◌, ◌≡◌, List, [], ◌∷◌, ◌++◌, Option, none, some, Bool, ◌&&◌, not,
}
use private_eth_getbalance_w.Prelude.{
  Outcome, ok, err, panic, length, ltb, leb, ◌==◌, if◌then◌else◌,
}
use private_eth_getbalance_w.Proto.Delta.{BlockDelta, CoalesceError, coalesce}
use mathlib.Core.List.{tail, head?, get_last?}
use mathlib.Core.Option

pub record DeltaRing : Type 0 where
  pub capacity : ℕ
  pub buf : List BlockDelta

abbrev pub default_capacity : ℕ
default_capacity = 300

-- `assert!(capacity > 0)`; the only failure is the panic.
unfoldable pub new : ℕ → Outcome ⊥ DeltaRing
new capacity = if ltb 0 capacity then ok (record { capacity = capacity; buf = [] }) else panic

-- `pop_front` on a full buffer, then `push_back`.
abbrev pub make_room : DeltaRing → List BlockDelta
make_room r = if length r.buf == r.capacity then tail r.buf else r.buf

unfoldable pub push : BlockDelta → DeltaRing → DeltaRing
push d r = record r { buf = make_room r ++ (d ∷ []) }

abbrev pub in_range : ℕ → ℕ → BlockDelta → Bool
in_range from_block to_block d = ltb from_block d.block && leb d.block to_block

-- `.iter().filter(…).cloned().collect()`
unfoldable pub select : ℕ → ℕ → List BlockDelta → List BlockDelta
select from_block to_block [] = []
select from_block to_block (d ∷ ds) =
    let rest = select from_block to_block ds in
    if in_range from_block to_block d then d ∷ rest else rest

-- `Result::ok`
abbrev pub ok_of {ℓ} : {E : Type 0} {A : Type ℓ} → Outcome E A → Option A
ok_of (ok a) = some a
ok_of (err e) = none
ok_of panic = none

-- `coalesce` does not panic (`coalesce-ne-panic`), so `ok_of` drops only its errors.
unfoldable pub range : ℕ → ℕ → DeltaRing → Option BlockDelta
range from_block to_block r =
    let selected = select from_block to_block r.buf in
    if leb to_block from_block
    then none
    else if not (length selected == to_block - from_block)
    then none
    else ok_of (coalesce selected)

unfoldable pub oldest : DeltaRing → Option ℕ
oldest r = Option.map (λ d. d.block) (head? r.buf)

unfoldable pub head : DeltaRing → Option ℕ
head r = Option.map (λ d. d.block) (get_last? r.buf)
