-- ===== src/Client/Rewind/Tests.antt =====
-- Runs of the two rewinds, and their theorems at concrete inputs.
use private_eth_getbalance_w.Prelude.{
  ℕ, zero, suc, ◌+◌, ◌%◌, ◌^◌, ◌<◌, ◌≡◌, refl, arith, List, [], ◌∷◌, ok, panic, get_or,
}
use private_eth_getbalance_w.Prelude.Int.{pos, negsuc}
use private_eth_getbalance_w.Client.Pending.{PendingMap}
use private_eth_getbalance_w.Client.Rewind.{
  SimpleParams, rewind_term, rewind_loop, rewind_frodo, rewind_simple,
}
use private_eth_getbalance_w.Client.Rewind.Restore.{
  product, IsPatched, reshaped, rewind_frodo_restores, rewind_simple_restores,
}

abbrev query : List ℕ
query = 3 ∷ 0xffff_ffff ∷ []

abbrev delta_cells : PendingMap
delta_cells = ((0, 1), pos 5) ∷ ((1, 0), negsuc 1) ∷ []

abbrev pinned : List ℕ
pinned = 7 ∷ 0xffff_fff8 ∷ []

-- 7 + (2^32 - 1) * (-2) and 2^32 - 8 + 3 * 5, modulo 2^32.
abbrev patched : List ℕ
patched = 9 ∷ 7 ∷ []

rewind_patched : rewind_frodo query patched delta_cells ≡ ok pinned
unfolding rewind_frodo rewind_loop rewind_term
rewind_patched = refl

rewind_outside : rewind_frodo query (9 ∷ []) delta_cells ≡ panic
unfolding rewind_frodo rewind_loop rewind_term
rewind_outside = refl

patched-IsPatched : IsPatched (λ key. key) query pinned patched delta_cells
unfolding product
patched-IsPatched = record {
  size = refl;
  words = (omega arith, (omega arith, tt));
  inside = ((omega arith, omega arith), ((omega arith, omega arith), tt));
  sums = entries;
}
  where
    entries :
        (c : ℕ)
        → c < 2
        → get_or patched c 0
          ≡ (get_or pinned c 0 + product (λ key. key) query delta_cells c) % 2 ^ 32
    entries zero lt = refl
    entries (suc zero) lt = refl
    entries (suc (suc c)) lt = absurd (omega arith)

rewind_frodo_restores_example : rewind_frodo query patched delta_cells ≡ ok pinned
rewind_frodo_restores_example =
    rewind_frodo_restores query pinned patched delta_cells patched-IsPatched

-- Two rows of width 2 in one row of the reshaped matrix.
abbrev two_rows : SimpleParams
two_rows = record { k = 2; row_width = 2 }

abbrev simple_query : List ℕ
simple_query = 3 ∷ []

abbrev simple_pinned : List ℕ
simple_pinned = 1 ∷ 2 ∷ 0 ∷ 4 ∷ []

abbrev simple_patched : List ℕ
simple_patched = 1 ∷ 17 ∷ 0xffff_fffa ∷ 4 ∷ []

simple-IsPatched :
    IsPatched (reshaped two_rows) simple_query simple_pinned simple_patched delta_cells
unfolding product
simple-IsPatched = record {
  size = refl;
  words = (omega arith, (omega arith, (omega arith, (omega arith, tt))));
  inside = ((omega arith, omega arith), ((omega arith, omega arith), tt));
  sums = entries;
}
  where
    entries :
        (c : ℕ)
        → c < 4
        → get_or simple_patched c 0
          ≡ (get_or simple_pinned c 0 + product (reshaped two_rows) simple_query delta_cells c)
            % 2 ^ 32
    entries zero lt = refl
    entries (suc zero) lt = refl
    entries (suc (suc zero)) lt = refl
    entries (suc (suc (suc zero))) lt = refl
    entries (suc (suc (suc (suc c)))) lt = absurd (omega arith)

rewind_simple_restores_example :
    rewind_simple two_rows simple_query simple_patched delta_cells ≡ ok simple_pinned
rewind_simple_restores_example =
    rewind_simple_restores two_rows simple_query simple_pinned simple_patched delta_cells
      (omega arith) simple-IsPatched
