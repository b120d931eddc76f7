-- ===== src/Server/RisePir/Setup/Answer.antt =====
-- Answering: one response for each segment's query, at the head.
use private_eth_getbalance_w.Prelude.{
  ℕ, zero, suc, ◌+◌, ◌*◌, ◌≤◌, ◌≡◌, ◌≢◌, refl, subst, ap, arith, List, [], ◌∷◌, Option, some, ok,
  err, length, get_elem?, get_elem?_total, take, drop, ◌==◌, ==_iff, true, false, leb,
}
use private_eth_getbalance_w.Server.Fold.{CuckooParams}
use private_eth_getbalance_w.Server.RisePir.{
  malformed_query, Cuckoo, Backend, RisePirServer, row_width, seg_cells,
}
use private_eth_getbalance_w.Server.RisePir.Setup.{answer_segments, answer}
use private_eth_getbalance_w.Server.RisePir.Setup.Rebuild.{segment_end, leb_of_le}
use private_eth_getbalance_w.Server.RisePir.Setup.Restart.{IsServer}

zero_add : (j : ℕ) → 0 + j ≡ j
zero_add j = omega arith

eqb_false : (a c : ℕ) → a ≢ c → (a == c) ≡ false
eqb_false a c h = ground arith

module _ (b : Backend) (params : CuckooParams) (sps : List b.ServerParams) (cells : List ℕ) where
  -- The response to the query of segment j is the backend's, over that segment's cells.
  abbrev pub IsResponse : ℕ → b.Query → Option b.Response → Type 0
  IsResponse j query response =
      (sp : b.ServerParams) × (get_elem? sps j ≡ some sp)
      × (response
          ≡ some (
              b.server_answer sp (take (seg_cells params) (drop (j * seg_cells params) cells))
                params.segment_size (row_width params) query))

  each-IsResponse :
      (j : ℕ) (sp : b.ServerParams) (query : b.Query) (queries : List b.Query)
      (responses : List b.Response)
      → get_elem? sps j ≡ some sp
      → ((i : ℕ) (query' : b.Query)
          → get_elem? queries i ≡ some query'
          → IsResponse (j + 1 + i) query' (get_elem? responses i))
      → (i : ℕ) (query' : b.Query) → get_elem? (query ∷ queries) i ≡ some query'
      → IsResponse (j + i) query' (
          get_elem?
            (b.server_answer sp
                (take (seg_cells params) (drop (j * seg_cells params) cells))
                params.segment_size
                (row_width params)
                query
              ∷ responses)
            i)
  each-IsResponse j sp query queries responses at each zero query' h =
      let same : query ≡ query' = cc in
      let here : j + 0 ≡ j = omega arith in rw (here, ← same) (sp, at, refl)
  each-IsResponse j sp query queries responses at each (suc i) query' h =
      let there : j + suc i ≡ j + 1 + i = omega arith in rw there (each i query' h)

  answer_segments_total :
      (arity j : ℕ) (queries : List b.Query)
      → j + length queries ≡ arity
      → length sps ≡ arity
      → arity * seg_cells params ≤ length cells
      → (responses : List b.Response) × (answer_segments b params sps cells j queries
          ≡ ok responses)
        × (length responses ≡ length queries)
        × ((i : ℕ) (query : b.Query)
            → get_elem? queries i ≡ some query
            → IsResponse (j + i) query (get_elem? responses i))
  unfolding answer_segments
  answer_segments_total arity j [] n m room = ([], refl, refl, λ i query h. cc)
  answer_segments_total arity j (query ∷ queries) n m room =
      let (sp, at) = get_elem?_total sps j (omega (arith, n, m)) in
      let fits : leb (j * seg_cells params + seg_cells params) (length cells) ≡ true =
        leb_of_le (segment_end j arity (seg_cells params) (omega (arith, n)) room) in
      let (responses, rest, k, each) =
        answer_segments_total arity (j + 1) queries (omega (arith, n)) m room in
      (
        b.server_answer sp (take (seg_cells params) (drop (j * seg_cells params) cells))
              params.segment_size (row_width params) query
            ∷ responses,
        rw (at, fits, rest) refl,
        ap suc k,
        λ i query' h. each-IsResponse j sp query queries responses at each i query' h,
      )

module _ {S : Type 0} (cuckoo : Cuckoo S) (b : Backend) where
  -- A well-formed server over a store with the cells of all its segments refuses any number of queries but
  -- its number of segments. That many it answers, at its head, each by the backend's response over the
  -- cells of the query's own segment.
  pub answer_total :
      (server : RisePirServer S b) (queries : List b.Query)
      → IsServer cuckoo b server
      → server.params.arity * seg_cells server.params ≤ length (cuckoo.as_cells server.store)
      → (length queries ≢ server.params.arity
          → answer cuckoo b server queries
            ≡ err (malformed_query server.params.arity (length queries)))
        × (length queries ≡ server.params.arity
            → (responses : List b.Response) × (answer cuckoo b server queries
                ≡ ok (responses, server.block))
              × (length responses ≡ length queries)
              × ((j : ℕ) (query : b.Query)
                  → get_elem? queries j ≡ some query
                  → IsResponse b server.params server.backend_params
                      (cuckoo.as_cells server.store)
                      j
                      query
                      (get_elem? responses j)))
  unfolding answer
  answer_total server queries h room = (
    (λ ne. rw (eqb_false (length queries) server.params.arity ne) refl),
    (λ n.
        let e : (length queries == server.params.arity) ≡ true = (==_iff _ _).1 n in
        let (responses, at, k, each) =
          answer_segments_total b server.params server.backend_params (cuckoo.as_cells server.store)
            server.params.arity 0 queries (omega (arith, n)) h.backend room in
        (
          responses,
          rw (e, at) refl,
          k,
          (λ j query q.
              subst
                (λ i.
                  IsResponse b server.params server.backend_params (cuckoo.as_cells server.store) i
                    query (get_elem? responses j))
                (zero_add j) (each j query q)),
        )),
  )
