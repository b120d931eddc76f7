-- ===== src/Client/Query/Garbage.antt =====
-- Garbage collection: the pending delta moves into the states, and the pinned block to its head.
use private_eth_getbalance_w.Prelude.{
  ℕ, zero, suc, ◌+◌, ◌≡◌, ◌≢◌, refl, ap, subst, arith, List, [], ◌∷◌, true, false, some, ok, length,
  get_elem?, get_elem?_total, ◌==◌, ==_iff,
}
use private_eth_getbalance_w.Prelude.{All, All-get_elem?}
use private_eth_getbalance_w.Prelude.Maps.{IsOrdered, pair_key}
use private_eth_getbalance_w.Proto.Delta.{SegmentRowDeltas}
use private_eth_getbalance_w.Proto.Delta.Sums.{rows_at}
use private_eth_getbalance_w.Client.Pending.Sums.{cell_at}
use private_eth_getbalance_w.Client.Pending.Rows.{as_row_deltas_at, as_row_deltas-ne-nil}
use private_eth_getbalance_w.Client.Pending.{
  group_rows, PendingMap, PendingDelta, new, segment, as_row_deltas,
}
use private_eth_getbalance_w.Client.Query.{
  ClientBackend, RisePirClient, patch_state, patch_states, collect_garbage,
}

zero_add : (j : ℕ) → 0 + j ≡ j
zero_add j = omega arith

eqb_false : (a c : ℕ) → a ≢ c → (a == c) ≡ false
eqb_false a c h = ground arith

module _ (b : ClientBackend) where
  -- What becomes of the state of a segment with the pending map `m`: with no entry it is kept, and otherwise
  -- the backend patches it, by rows that for each cell sum to what is pending.
  abbrev pub IsPatchedBy : PendingMap → b.ClientState → b.ClientState → Type 0
  IsPatchedBy [] state patched = patched ≡ state
  IsPatchedBy (e ∷ m) state patched =
      (rows : SegmentRowDeltas) × (patched ≡ b.client_patch_state state rows)
      × ((r o : ℕ) → rows_at r o rows ≡ cell_at r o (e ∷ m))

  -- State i is patched by the pending edits of segment j.
  abbrev pub IsPatched : PendingDelta → ℕ → List b.ClientState → ℕ → b.ClientState → Type 0
  IsPatched delta j states i state =
      (m : PendingMap) × (patched : b.ClientState) × (get_elem? delta.per_segment j ≡ some m)
      × (get_elem? states i ≡ some patched)
      × IsPatchedBy m state patched

  patch_state_some :
      (rows : SegmentRowDeltas) (state : b.ClientState)
      → rows ≢ []
      → patch_state b rows state ≡ b.client_patch_state state rows
  unfolding patch_state
  patch_state_some [] state h = absurd (h refl)
  patch_state_some (row ∷ rows) state h = refl

  patch_state-IsPatchedBy :
      (m : PendingMap) (state : b.ClientState)
      → IsOrdered m
      → IsPatchedBy m state (patch_state b (as_row_deltas m) state)
  patch_state-IsPatchedBy [] state h = unfold patch_state as_row_deltas group_rows in refl
  patch_state-IsPatchedBy ((k, d) ∷ m) state h = (
    as_row_deltas ((k, d) ∷ m),
    patch_state_some (as_row_deltas ((k, d) ∷ m)) state (as_row_deltas-ne-nil k d m),
    λ r o. as_row_deltas_at r o ((k, d) ∷ m) h,
  )

  patch_states_total :
      (delta : PendingDelta) (j : ℕ) (states : List b.ClientState)
      → All IsOrdered delta.per_segment
      → j + length states ≡ length delta.per_segment
      → (patched : List b.ClientState) × (patch_states b delta j states ≡ ok patched)
        × (length patched ≡ length states)
        × ((i : ℕ) (state : b.ClientState)
            → get_elem? states i ≡ some state
            → IsPatched delta (j + i) patched i state)
  unfolding patch_states segment
  patch_states_total delta j [] h n = ([], refl, refl, λ i state at. cc)
  patch_states_total delta j (state ∷ states) h n =
      let (m, at) = get_elem?_total delta.per_segment j (omega (arith, n)) in
      let (rest, e, k, each) = patch_states_total delta (j + 1) states h (omega (arith, n)) in
      (
        patch_state b (as_row_deltas m) state ∷ rest,
        rw (at, e) refl,
        ap suc k,
        each-IsPatched delta j m state states rest at
            (All-get_elem? IsOrdered delta.per_segment j m h at) each,
      )
    where
      each-IsPatched :
          (delta : PendingDelta) (j : ℕ) (m : PendingMap) (state : b.ClientState)
          (states rest : List b.ClientState)
          → get_elem? delta.per_segment j ≡ some m
          → IsOrdered m
          → ((i : ℕ) (state' : b.ClientState)
              → get_elem? states i ≡ some state'
              → IsPatched delta (j + 1 + i) rest i state')
          → (i : ℕ) (state' : b.ClientState) → get_elem? (state ∷ states) i ≡ some state'
          → IsPatched delta (j + i) (patch_state b (as_row_deltas m) state ∷ rest) i state'
      each-IsPatched delta j m state states rest at o each zero state' h =
          let same : state ≡ state' = cc in
          let here : j + 0 ≡ j = omega arith in
          rw (here, ← same) (m, _, at, refl, patch_state-IsPatchedBy m state o)
      each-IsPatched delta j m state states rest at o each (suc i) state' h =
          let there : j + suc i ≡ j + 1 + i = omega arith in rw there (each i state' h)

  -- Collecting a pending delta that has a segment, with its entries in order, for each of the client's
  -- states, up to its head, which is after the pinned block, succeeds. The head is then the pinned block, the
  -- pending delta is empty, and the state of a segment with nothing pending is kept; another is patched by
  -- the backend, once, by rows that for each cell of the segment sum to what was pending.
  pub collect_garbage_total :
      (client : RisePirClient b)
      → All IsOrdered client.delta.per_segment
      → length client.states ≡ length client.delta.per_segment
      → client.delta.head ≢ client.pinned_block
      → (states : List b.ClientState) × (collect_garbage b client.delta.head client
          ≡ ok (record client {
            states = states;
            pinned_block = client.delta.head;
            delta = new (length client.states) client.delta.head;
          }))
        × (length states ≡ length client.states)
        × ((j : ℕ) (state : b.ClientState)
            → get_elem? client.states j ≡ some state
            → IsPatched client.delta j states j state)
  unfolding collect_garbage
  collect_garbage_total client ordered n moved =
      let (states, e, k, each) =
        patch_states_total client.delta 0 client.states ordered (omega (arith, n)) in
      let head : (client.delta.head == client.delta.head) ≡ true = (==_iff _ _).1 refl in
      (
        states,
        rw (head, eqb_false client.delta.head client.pinned_block moved, e) refl,
        k,
        λ j state h.
            subst (λ i. IsPatched client.delta i states j state) (zero_add j) (each j state h),
      )
