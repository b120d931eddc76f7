-- ===== src/Client/Rewind.antt =====
-- crates/risepir-client/src/rewind.rs: `resp -= qᵀ·Δ` modulo 2^32, for the two PIR backends. The
-- query's and the response's vectors are those of the backends' types; the other fields of these
-- are not read.
pub mod Restore
mod Tests
use private_eth_getbalance_w.Prelude.{ℕ, suc, ◌+◌, ◌-◌, ◌*◌, ◌/◌, ◌%◌, ◌^◌, List, [], ◌∷◌}
use private_eth_getbalance_w.Prelude.{
  Outcome, ok, panic, ◌>>=◌, or_panic, get_elem?, set, ◌==◌, if◌then◌else◌,
}
use private_eth_getbalance_w.Prelude.Int.{ℤ, pos, negsuc}
use private_eth_getbalance_w.Client.Pending.{PendingMap}

-- `d as u32` of an i64: its low 32 bits.
abbrev pub low_word : ℤ → ℕ
low_word (pos n) = n % 2 ^ 32
low_word (negsuc n) = (2 ^ 32 - suc n % 2 ^ 32) % 2 ^ 32

-- `a[c] = a[c].wrapping_sub(b[i].wrapping_mul(d as u32))`
pub rewind_term : List ℕ → List ℕ → ℕ → ℕ → ℤ → Outcome ⊥ (List ℕ)
rewind_term b a i c d = do
  factor ← or_panic (get_elem? b i)
  let term = factor * low_word d % 2 ^ 32
  entry ← or_panic (get_elem? a c)
  ok (set a c ((entry + 2 ^ 32 - term) % 2 ^ 32))

-- The loop of both backends over the delta map, which `index` tells where a cell stands in the
-- query and in the response.
pub rewind_loop : (ℕ × ℕ → Outcome ⊥ (ℕ × ℕ)) → List ℕ → List ℕ → PendingMap → Outcome ⊥ (List ℕ)
rewind_loop index b a [] = ok a
rewind_loop index b a ((key, d) ∷ deltas) = do
  (i, c) ← index key
  a ← rewind_term b a i c d
  rewind_loop index b a deltas

abbrev pub frodo_index : ℕ × ℕ → Outcome ⊥ (ℕ × ℕ)
frodo_index (row, off) = ok (row, off)

pub rewind_frodo : List ℕ → List ℕ → PendingMap → Outcome ⊥ (List ℕ)
rewind_frodo b a deltas = rewind_loop frodo_index b a deltas

-- The reshape parameters of a segment.
pub record SimpleParams : Type 0 where
  pub k : ℕ
  pub row_width : ℕ

-- A division by 0 panics; the column is computed as a u32.
abbrev pub simple_index : SimpleParams → ℕ × ℕ → Outcome ⊥ (ℕ × ℕ)
simple_index params (row, off) =
    if params.k == 0
    then panic
    else ok (row / params.k, (row % params.k * params.row_width + off) % 2 ^ 32)

pub rewind_simple : SimpleParams → List ℕ → List ℕ → PendingMap → Outcome ⊥ (List ℕ)
rewind_simple params b a deltas = rewind_loop (simple_index params) b a deltas
