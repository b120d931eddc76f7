-- ===== src/Client/Query/Finish.antt =====
-- The answer of a lookup: that of a search through the candidate slots.
use private_eth_getbalance_w.Prelude.{
  ℕ, zero, suc, ◌+◌, ◌*◌, ◌^◌, ◌<◌, ◌≡◌, refl, ◌∙◌, List, [], ◌∷◌, ◌++◌, true, Outcome, ok, ◌>>=◌,
  >>=-eq-ok, >>=-cong, ok-injective, length, replicate, All, ◌==◌, ==_iff,
}
use private_eth_getbalance_w.Proto.Delta.{AddressHash}
use private_eth_getbalance_w.Proto.Value.{ValueCodec, key_tag, extract_key_tag, decode, not_found}
use private_eth_getbalance_w.Client.Pending.{ClientError}
use private_eth_getbalance_w.Client.Query.{
  Geometry, ClientBackend, QueryCtx, RisePirClient, Selection, slice, select_slot, select_slots,
  bucket_cells, check_rows, select_segments, lift, conclude, finish,
}
use private_eth_getbalance_w.Client.Query.Select.{
  select_all, select_all-append, IsRead, IsMatch, select_others, select_unique,
}

-- The slots in a bucket's cells from `s` on, `left` of them.
unfoldable pub unpacked : Geometry → List ℕ → ℕ → ℕ → Outcome ClientError (List (ℕ × List ℕ))
unpacked params cells zero s = ok []
unpacked params cells (suc left) s = do
  slot ← slice cells (s * params.cells_per_slot) params.cells_per_slot
  rest ← unpacked params cells left (s + 1)
  ok (params.unpack_slot_cells slot ∷ rest)

select_slots-unpacked :
    (params : Geometry) (value_codec : ValueCodec) (fp tag : ℕ) (cells : List ℕ) (left s : ℕ)
    (slots : List (ℕ × List ℕ)) (selection : Selection)
    → unpacked params cells left s ≡ ok slots
    → select_slots params value_codec fp tag cells left s selection
      ≡ select_all value_codec fp tag slots selection
unfolding unpacked select_slots select_all
select_slots-unpacked params value_codec fp tag cells zero s slots selection e =
    let same : [] ≡ slots = ok-injective [] slots e in rw (← same) refl
select_slots-unpacked params value_codec fp tag cells (suc left) s slots selection e =
    let cps = params.cells_per_slot in
    let (slot, sliced, e) = >>=-eq-ok (slice cells (s * cps) cps) _ e in
    let (rest, unpack, e) = >>=-eq-ok (unpacked params cells left (s + 1)) _ e in
    let same = ok-injective (params.unpack_slot_cells slot ∷ rest) slots e in
    rw (sliced, ← same)
      (>>=-cong (select_slot value_codec fp tag (params.unpack_slot_cells slot) selection) _ _
        (λ s1. select_slots-unpacked params value_codec fp tag cells left (s + 1) rest s1 unpack))

module _ (b : ClientBackend) where
  -- The candidate slots as of the head, in the segments from `j` on.
  unfoldable pub gather :
      RisePirClient b
      → QueryCtx b
      → List b.Response
      → ℕ
      → ℕ
      → Outcome ClientError (List (ℕ × List ℕ))
  gather client ctx resp zero j = ok []
  gather client ctx resp (suc left) j = do
    cells ← bucket_cells b client ctx resp j
    slots ← unpacked client.params cells client.params.bucket_size 0
    rest ← gather client ctx resp left (j + 1)
    ok (slots ++ rest)

  select_segments-gather :
      (client : RisePirClient b) (ctx : QueryCtx b) (resp : List b.Response) (fp tag left j : ℕ)
      (slots : List (ℕ × List ℕ)) (selection : Selection)
      → gather client ctx resp left j ≡ ok slots
      → select_segments b client ctx resp fp tag left j selection
        ≡ select_all client.value_codec fp tag slots selection
  unfolding gather select_segments
  select_segments-gather client ctx resp fp tag zero j slots selection e =
      let same : [] ≡ slots = ok-injective [] slots e in unfold select_all in rw (← same) refl
  select_segments-gather client ctx resp fp tag (suc left) j slots selection e =
      let (cells, bucket, e) = >>=-eq-ok (bucket_cells b client ctx resp j) _ e in
      let size = client.params.bucket_size in
      let (here, unpack, e) = >>=-eq-ok (unpacked client.params cells size 0) _ e in
      let (rest, later, e) = >>=-eq-ok (gather client ctx resp left (j + 1)) _ e in
      let same = ok-injective (here ++ rest) slots e in
      let codec = client.value_codec in
      rw
        (
          bucket,
          select_slots-unpacked client.params codec fp tag cells size 0 here selection unpack,
          ← same,
          select_all-append codec fp tag here rest selection,
        )
        (>>=-cong (select_all codec fp tag here selection) _ _
          (λ s1. select_segments-gather client ctx resp fp tag left (j + 1) rest s1 later))

module _ (xxh3_64_with_seed : AddressHash → ℕ → ℕ) (b : ClientBackend) (client : RisePirClient b)
    (key : AddressHash) (ctx : QueryCtx b) (resp : List b.Response) where
  abbrev arity : ℕ
  arity = client.params.arity

  abbrev key_fp : ℕ
  key_fp = (client.params.candidate_buckets key).0

  abbrev tag : ℕ
  tag = key_tag xxh3_64_with_seed client.value_codec key

  -- The response and the context are of the geometry, and the context is the key's.
  pub record IsContext : Type 0 where
    pub responses : length resp ≡ client.params.arity
    pub queries : length ctx.queries ≡ client.params.arity
    pub count : length ctx.rows ≡ client.params.arity
    pub rows :
        (check_rows client.params.segment_size ctx.rows
            (client.params.candidate_buckets key).1
            client.params.arity
            0
          ≡ ok tt)

  -- A slot that is read and is not the key's.
  abbrev pub IsOther : ℕ × List ℕ → Type 0
  IsOther slot =
      IsRead client.value_codec (client.params.candidate_buckets key).0
        (key_tag xxh3_64_with_seed client.value_codec key) slot
      × (IsMatch client.value_codec (client.params.candidate_buckets key).0
            (key_tag xxh3_64_with_seed client.value_codec key) slot
          → ⊥)

  finish_steps :
      (slots : List (ℕ × List ℕ))
      → IsContext
      → gather b client ctx resp client.params.arity 0 ≡ ok slots
      → finish xxh3_64_with_seed b client key ctx resp client.delta.head ≡ (
          select_all client.value_codec
            (client.params.candidate_buckets key).0
            (key_tag xxh3_64_with_seed client.value_codec key)
            slots
            (record { acc = replicate client.params.value_size_in_bytes 0; found_mask = 0 })
          >>= conclude xxh3_64_with_seed client.value_codec key)
  unfolding finish
  finish_steps slots h gathered =
      let p : (length resp == client.params.arity) ≡ true = (==_iff _ _).1 h.responses in
      let q : (length ctx.queries == client.params.arity) ≡ true = (==_iff _ _).1 h.queries in
      let r : (length ctx.rows == client.params.arity) ≡ true = (==_iff _ _).1 h.count in
      let head : (client.delta.head == client.delta.head) ≡ true = (==_iff _ _).1 refl in
      rw
        (
          p,
          q,
          r,
          head,
          h.rows,
          select_segments-gather b client ctx resp _ _ client.params.arity 0 slots _ gathered,
        )
        refl

  -- A lookup for the key of its context, answered at the head, whose candidate slots as of the head, all of
  -- them read, hold none of the key's, finds nothing. Fingerprints and tags are u64s.
  pub finish_not_found :
      (slots : List (ℕ × List ℕ))
      → IsContext
      → (client.params.candidate_buckets key).0 < 2 ^ 64
      → key_tag xxh3_64_with_seed client.value_codec key < 2 ^ 64
      → gather b client ctx resp client.params.arity 0 ≡ ok slots
      → All IsOther slots
      → finish xxh3_64_with_seed b client key ctx resp client.delta.head ≡ ok not_found
  finish_not_found slots h f t gathered others =
      finish_steps slots h gathered
      ∙ rw (select_others client.value_codec _ _ slots _ f t others) refl

  -- A lookup for the key of its context, answered at the head, whose candidate slots as of the head are all
  -- read and hold exactly one of the key's, gives what the bytes of that slot decode to, wherever it stands.
  -- Its bytes are as many as a value of the geometry has, and fingerprints and tags are u64s.
  pub finish_found :
      (front back : List (ℕ × List ℕ)) (bytes : List ℕ)
      → IsContext
      → (client.params.candidate_buckets key).0 < 2 ^ 64
      → key_tag xxh3_64_with_seed client.value_codec key < 2 ^ 64
      → gather b client ctx resp client.params.arity 0
        ≡ ok (front ++ ((client.params.candidate_buckets key).0, bytes) ∷ back)
      → All IsOther front
      → All IsOther back
      → extract_key_tag {E = ClientError} client.value_codec bytes
        ≡ ok (key_tag xxh3_64_with_seed client.value_codec key)
      → All (λ v. v < 256) bytes
      → length bytes ≡ client.params.value_size_in_bytes
      → finish xxh3_64_with_seed b client key ctx resp client.delta.head
        ≡ lift (decode xxh3_64_with_seed client.value_codec key bytes)
  finish_found front back bytes h f t gathered before after read small size =
      finish_steps (front ++ ((client.params.candidate_buckets key).0, bytes) ∷ back) h gathered
      ∙ rw
          (
            ← size,
            select_unique client.value_codec _ _ front back bytes f t before after read small,
          )
          refl
