-- ===== src/Server/RisePir/Hints.antt =====
-- The patches of a block: each segment with edits has its hint patched once, and no other part of
-- the server changes.
use private_eth_getbalance_w.Prelude.{
  ℕ, zero, suc, ◌+◌, ◌<◌, ◌≡◌, ◌≢◌, refl, sym, ap, subst, ◌∙◌, arith, List, [], ◌∷◌, ok, some,
  get_elem?, set, or_panic, >>=-eq-ok, ok-injective, IsErrFree, >>=-IsErrFree, or_panic-IsErrFree,
  or_panic-eq-ok, set_present, get_elem?-set_ne, length, length-set,
}
use private_eth_getbalance_w.Proto.Delta.{SegmentRowDeltas}
use private_eth_getbalance_w.Server.RisePir.{ServerError, Backend, RisePirServer}
use private_eth_getbalance_w.Server.RisePir.Apply.{patch_hint, patch_hints}

-- What becomes of the hint of segment j among the hints `old` under its edits.
zero_add : (j : ℕ) → 0 + j ≡ j
zero_add j = omega arith

module _ (b : Backend) where
  unfoldable pub Patched :
      List b.ServerParams
      → List b.HintMaterial
      → List b.Hint
      → List b.Hint
      → ℕ
      → SegmentRowDeltas
      → Type 0
  Patched ps ms old new j [] = get_elem? new j ≡ get_elem? old j
  Patched ps ms old new j (row ∷ deltas) =
      (params : b.ServerParams) × (material : b.HintMaterial) × (hint : b.Hint) × (get_elem? ps j
        ≡ some params)
      × (get_elem? ms j ≡ some material)
      × (get_elem? old j ≡ some hint)
      × (get_elem? new j ≡ some (b.server_patch_hint params material hint (row ∷ deltas)))

  Patched_moved :
      (ps : List b.ServerParams) (ms : List b.HintMaterial) (old old' new new' : List b.Hint)
      (j : ℕ) (deltas : SegmentRowDeltas)
      → get_elem? old' j ≡ get_elem? old j
      → get_elem? new' j ≡ get_elem? new j
      → Patched ps ms old new j deltas
      → Patched ps ms old' new' j deltas
  unfolding Patched
  Patched_moved ps ms old old' new new' j [] p q h = q ∙ h ∙ sym p
  Patched_moved ps ms old old' new new' j (row ∷ deltas) p q (params, m, hint, a, c, d, e) =
      (params, m, hint, a, c, p ∙ d, q ∙ e)

module _ {S : Type 0} {b : Backend} where
  pub patch_hint-IsErrFree :
      (j : ℕ) (deltas : SegmentRowDeltas) (server : RisePirServer S b)
      → IsErrFree (patch_hint j deltas server)
  unfolding patch_hint
  patch_hint-IsErrFree j [] server = tt
  patch_hint-IsErrFree j (row ∷ deltas) server =
      >>=-IsErrFree (or_panic (get_elem? server.backend_params j)) _
        (or_panic-IsErrFree ServerError (get_elem? server.backend_params j))
        (λ p.
          >>=-IsErrFree (or_panic (get_elem? server.material j)) _
            (or_panic-IsErrFree ServerError (get_elem? server.material j))
            (λ m.
              >>=-IsErrFree (or_panic (get_elem? server.hints j)) _
                (or_panic-IsErrFree ServerError (get_elem? server.hints j)) (λ h. tt)))

  pub patch_hints-IsErrFree :
      (j : ℕ) (row_deltas : List SegmentRowDeltas) (server : RisePirServer S b)
      → IsErrFree (patch_hints j row_deltas server)
  unfolding patch_hints
  patch_hints-IsErrFree j [] server = tt
  patch_hints-IsErrFree j (deltas ∷ row_deltas) server =
      >>=-IsErrFree (patch_hint j deltas server) _ (patch_hint-IsErrFree j deltas server)
        (patch_hints-IsErrFree (j + 1) row_deltas)

  patch_hint_lem :
      (j : ℕ) (deltas : SegmentRowDeltas) (server server' : RisePirServer S b) (old : List b.Hint)
      → patch_hint j deltas (record server { hints = old }) ≡ ok server'
      → (new : List b.Hint) × (server' ≡ record server { hints = new })
        × ((i : ℕ) → i ≢ j → get_elem? new i ≡ get_elem? old i)
        × Patched b server.backend_params server.material old new j deltas
  unfolding patch_hint Patched
  patch_hint_lem j [] server server' old e =
      (old, sym (ok-injective _ server' e), (λ i h. refl), refl)
  patch_hint_lem j (row ∷ deltas) server server' old e =
      let (params, p, e) = >>=-eq-ok (or_panic (get_elem? server.backend_params j)) _ e in
      let (material, m, e) = >>=-eq-ok (or_panic (get_elem? server.material j)) _ e in
      let (hint, h, e) = >>=-eq-ok (or_panic (get_elem? old j)) _ e in
      let patched = b.server_patch_hint params material hint (row ∷ deltas) in
      let here = or_panic-eq-ok ServerError (get_elem? old j) hint h in
      (
        set old j patched,
        sym (ok-injective _ server' e),
        (λ i ne. get_elem?-set_ne old patched (λ q. ne (sym q))),
        (
          params,
          material,
          hint,
          or_panic-eq-ok ServerError _ params p,
          or_panic-eq-ok ServerError _ material m,
          here,
          set_present old j patched hint here,
        ),
      )

  -- The first patch, and those of the segments after it, as seen from the start.
  each_patched :
      (server : RisePirServer S b) (old mid new : List b.Hint) (j : ℕ) (deltas : SegmentRowDeltas)
      (row_deltas : List SegmentRowDeltas)
      → ((i : ℕ) → i ≢ j → get_elem? mid i ≡ get_elem? old i)
      → ((i : ℕ) → i < j + 1 → get_elem? new i ≡ get_elem? mid i)
      → Patched b server.backend_params server.material old mid j deltas
      → ((i : ℕ) (ds : SegmentRowDeltas)
          → get_elem? row_deltas i ≡ some ds
          → Patched b server.backend_params server.material mid new (j + 1 + i) ds)
      → (i : ℕ) (ds : SegmentRowDeltas) → get_elem? (deltas ∷ row_deltas) i ≡ some ds
      → Patched b server.backend_params server.material old new (j + i) ds
  each_patched server old mid new j deltas row_deltas others before here each zero ds h =
      let same : deltas ≡ ds = cc in
      let at : j + 0 ≡ j = omega arith in
      rw (at, ← same)
        (Patched_moved b server.backend_params server.material old old mid new j deltas refl
          (before j (omega arith)) here)
  each_patched server old mid new j deltas row_deltas others before here each (suc i) ds h =
      let at : j + suc i ≡ j + 1 + i = omega arith in
      rw at (
        Patched_moved b server.backend_params server.material mid old new new (j + 1 + i) ds
          (sym (others (j + 1 + i) (λ q. omega (arith, q)))) refl (each i ds h))

  pub patch_hints_lem :
      (j : ℕ) (row_deltas : List SegmentRowDeltas) (server server' : RisePirServer S b)
      (old : List b.Hint)
      → patch_hints j row_deltas (record server { hints = old }) ≡ ok server'
      → (new : List b.Hint) × (server' ≡ record server { hints = new })
        × ((i : ℕ) → i < j → get_elem? new i ≡ get_elem? old i)
        × ((i : ℕ) (deltas : SegmentRowDeltas)
            → get_elem? row_deltas i ≡ some deltas
            → Patched b server.backend_params server.material old new (j + i) deltas)
  unfolding patch_hints
  patch_hints_lem j [] server server' old e =
      (old, sym (ok-injective _ server' e), (λ i h. refl), (λ i deltas h. cc))
  patch_hints_lem j (deltas ∷ row_deltas) server server' old e =
      let (mid, first, rest) =
        >>=-eq-ok (patch_hint j deltas (record server { hints = old })) _ e in
      let (hints, at, others, here) = patch_hint_lem j deltas server mid old first in
      let (new, whole, before, each) =
        patch_hints_lem (j + 1) row_deltas server server' hints (rw at at rest) in
      (
        new,
        whole,
        (λ i h. before i (omega arith) ∙ others i (λ q. omega (arith, q))),
        each_patched server old hints new j deltas row_deltas others (λ i h. before i h) here each,
      )

  patch_hint-length :
      (j : ℕ) (deltas : SegmentRowDeltas) (server server' : RisePirServer S b)
      → patch_hint j deltas server ≡ ok server'
      → length server'.hints ≡ length server.hints
  unfolding patch_hint
  patch_hint-length j [] server server' e =
      ap (λ s. length s.hints) (sym (ok-injective server server' e))
  patch_hint-length j (row ∷ deltas) server server' e =
      let (params, p, e) = >>=-eq-ok (or_panic (get_elem? server.backend_params j)) _ e in
      let (material, m, e) = >>=-eq-ok (or_panic (get_elem? server.material j)) _ e in
      let (hint, h, e) = >>=-eq-ok (or_panic (get_elem? server.hints j)) _ e in
      ap (λ s. length s.hints) (sym (ok-injective _ server' e)) ∙ length-set server.hints j _

  pub patch_hints-length :
      (j : ℕ) (row_deltas : List SegmentRowDeltas) (server server' : RisePirServer S b)
      → patch_hints j row_deltas server ≡ ok server'
      → length server'.hints ≡ length server.hints
  unfolding patch_hints
  patch_hints-length j [] server server' e =
      ap (λ s. length s.hints) (sym (ok-injective server server' e))
  patch_hints-length j (deltas ∷ row_deltas) server server' e =
      let (mid, first, rest) = >>=-eq-ok (patch_hint j deltas server) _ e in
      patch_hints-length (j + 1) row_deltas mid server' rest
      ∙ patch_hint-length j deltas server mid first

  -- The patches of all segments.
  pub patch_hints_whole :
      (row_deltas : List SegmentRowDeltas) (server server' : RisePirServer S b)
      → patch_hints 0 row_deltas server ≡ ok server'
      → (new : List b.Hint) × (server' ≡ record server { hints = new })
        × (length new ≡ length server.hints)
        × ((j : ℕ) (deltas : SegmentRowDeltas)
            → get_elem? row_deltas j ≡ some deltas
            → Patched b server.backend_params server.material server.hints new j deltas)
  patch_hints_whole row_deltas server server' e =
      let (new, whole, before, each) = patch_hints_lem 0 row_deltas server server' server.hints e in
      (
        new,
        whole,
        ap (λ s. length s.hints) (sym whole) ∙ patch_hints-length 0 row_deltas server server' e,
        λ j deltas h.
            subst (λ i. Patched b server.backend_params server.material server.hints new i deltas)
              (zero_add j) (each j deltas h),
      )
