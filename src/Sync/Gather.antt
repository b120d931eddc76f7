-- ===== src/Sync/Gather.antt =====
-- The candidate slots that a client gathers are those that the server scans.
use private_eth_getbalance_w.Prelude.{
  ℕ, zero, suc, ◌+◌, ◌*◌, ◌^◌, ◌≤◌, ◌<◌, ◌≡◌, refl, sym, ◌∙◌, ap, subst, arith, List, [], ◌∷◌,
  Outcome, ok, All, length, take, drop, get_elem?, some, leb, true, false,
}
use private_eth_getbalance_w.Proto.Delta.{AddressHash, Balance}
use private_eth_getbalance_w.Proto.Value.{Lookup, found, not_found, key_tag, div_ceil_8, value_bits}
use private_eth_getbalance_w.Proto.Value.Decode.{IsRepresentable}
use private_eth_getbalance_w.Server.Verified.{
  Store, Located, own, absent, shadowed, duplicate_tag, corrupt, locate,
}
use private_eth_getbalance_w.Server.Verified.Found.{slots_from, probes, IsForeign, IsSplit}
use private_eth_getbalance_w.Server.Verified.Locate.{key_slots, locate_own, locate_absent}
use private_eth_getbalance_w.Client.Pending.{ClientError}
use private_eth_getbalance_w.Client.Query.{
  Geometry, ClientBackend, QueryCtx, RisePirClient, bucket_cells, finish,
}
use private_eth_getbalance_w.Client.Query.Finish.{
  unpacked, gather, IsContext, finish_found, finish_not_found,
}
use private_eth_getbalance_w.Sync.Slots.{
  IsStored, append-All, probes-All, extract_key_tag-found, All-foreign_other, All-other_fingerprint,
}

-- The cells are those of a bucket, whose slots the store unpacks as the client does.
pub record Unpacks (params : Geometry) (store : Store) (bucket : ℕ) (cells : List ℕ) : Type 0 where
  pub room :
      (s : ℕ)
      → s < params.bucket_size
      → s * params.cells_per_slot + params.cells_per_slot ≤ length cells
  pub slot :
      (s : ℕ)
      → s < params.bucket_size
      → params.unpack_slot_cells
          (take params.cells_per_slot (drop (s * params.cells_per_slot) cells))
        ≡ store.slot_at bucket s

unpacked-slots_from :
    (params : Geometry) (store : Store) (bucket : ℕ) (cells : List ℕ) (left s : ℕ)
    → Unpacks params store bucket cells
    → left + s ≡ params.bucket_size
    → unpacked params cells left s ≡ ok (slots_from store bucket left s)
unfolding unpacked slots_from
unpacked-slots_from params store bucket cells zero s h e = refl
unpacked-slots_from params store bucket cells (suc left) s h e =
    let within : s < params.bucket_size = omega (arith, e) in
    let room : leb (s * params.cells_per_slot + params.cells_per_slot) (length cells) ≡ true =
      ground (arith, h.room s within) in
    rw
      (
        room,
        unpacked-slots_from params store bucket cells left (s + 1) h (omega (arith, e)),
        h.slot s within,
      )
      refl

add_zero : (j : ℕ) → j + 0 ≡ j
add_zero j = omega arith

after_index : (j i : ℕ) → j + suc i ≡ (j + 1) + i
after_index j i = omega arith

module _ (b : ClientBackend) (client : RisePirClient b) (ctx : QueryCtx b) (resp : List b.Response)
    (store : Store) where
  -- The response for segment `j` gives the cells of the bucket.
  abbrev pub ReadsBucket : ℕ → ℕ → Type 0
  ReadsBucket j bucket =
      (cells : List ℕ) × (bucket_cells b client ctx resp j ≡ ok cells)
      × Unpacks client.params store bucket cells

  pub gather-probes :
      (buckets : List ℕ) (j : ℕ)
      → store.bucket_size ≡ client.params.bucket_size
      → ((i bucket : ℕ) → get_elem? buckets i ≡ some bucket → ReadsBucket (j + i) bucket)
      → gather b client ctx resp (length buckets) j ≡ ok (probes store buckets)
  unfolding gather probes
  gather-probes [] j size h = refl
  gather-probes (bucket ∷ buckets) j size h =
      let (cells, read, unpacks) =
        subst (λ k. ReadsBucket k bucket) (add_zero j) (h 0 bucket refl) in
      let here : unpacked client.params cells client.params.bucket_size 0
          ≡ ok (slots_from store bucket store.bucket_size 0) =
        unpacked-slots_from client.params store bucket cells client.params.bucket_size 0 unpacks
          (omega arith)
        ∙ ap (λ n. ok (slots_from store bucket n 0)) (sym size) in
      let rest : gather b client ctx resp (length buckets) (j + 1) ≡ ok (probes store buckets) =
        gather-probes buckets (j + 1) size
          (λ i next e. subst (λ k. ReadsBucket k next) (after_index j i) (h (suc i) next e)) in
      rw (read, here, rest) refl

-- The server's verdict on a key, and what the client's lookup of it returns: the balance that the store
-- holds for the key, or that it holds none.
abbrev pub Answers : Located → Outcome ClientError Lookup → Type 0
Answers (own balance) result = result ≡ ok (found balance)
Answers (absent n) result = result ≡ ok not_found
Answers shadowed result = Unit
Answers duplicate_tag result = Unit
Answers corrupt result = Unit

module _ (xxh3_64_with_seed : AddressHash → ℕ → ℕ) (b : ClientBackend) (client : RisePirClient b)
    (key : AddressHash) (store : Store) where
  -- The client's geometry and codec are those of the store, and the store's slots are of the codec's size.
  pub record Agrees : Type 0 where
    pub arity : store.arity ≡ client.params.arity
    pub bucket_size : store.bucket_size ≡ client.params.bucket_size
    pub candidates : store.candidate_buckets key ≡ client.params.candidate_buckets key
    pub count : length (client.params.candidate_buckets key).1 ≡ client.params.arity
    pub fingerprint : (client.params.candidate_buckets key).0 < 2 ^ 64
    pub tag : key_tag xxh3_64_with_seed client.value_codec key < 2 ^ 64
    pub representable : IsRepresentable client.value_codec
    pub value_size : client.params.value_size_in_bytes ≡ div_ceil_8 (value_bits client.value_codec)
    pub slots : (bucket slot : ℕ) → IsStored client.value_codec (store.slot_at bucket slot)
    pub few : length (probes store (client.params.candidate_buckets key).1) < 2 ^ 32

  take_all : (n : ℕ) (xs : List ℕ) → length xs ≡ n → take n xs ≡ xs
  take_all zero [] e = refl
  take_all zero (x ∷ xs) e = absurd (omega (arith, e))
  take_all (suc n) [] e = refl
  take_all (suc n) (x ∷ xs) e = ap (λ l. x ∷ l) (take_all n xs (omega (arith, e)))

  -- The slots that the server scans for the key.
  scanned_slots :
      Agrees
      → key_slots xxh3_64_with_seed client.value_codec key store
        ≡ probes store (client.params.candidate_buckets key).1
  scanned_slots a =
      ap (λ bs. probes store bs)
        (rw (a.arity, a.candidates)
          (take_all client.params.arity (client.params.candidate_buckets key).1 a.count))

  -- The server's split at the key's own slot, over the slots that the client gathers.
  own-IsSplit :
      (balance : Balance)
      → Agrees
      → locate xxh3_64_with_seed client.value_codec key store ≡ ok (own balance)
      → IsSplit xxh3_64_with_seed client.value_codec key
          (client.params.candidate_buckets key).0
          (probes store (client.params.candidate_buckets key).1)
          (found balance)
          false
  own-IsSplit balance a e =
      let same : (store.candidate_buckets key).0 ≡ (client.params.candidate_buckets key).0 =
        ap (λ p. p.0) a.candidates in
      rw (← same, ← scanned_slots a)
        (locate_own xxh3_64_with_seed client.value_codec key store balance
          (rw (scanned_slots a) (a.few)) e)

  none_own :
      (n : ℕ)
      → Agrees
      → locate xxh3_64_with_seed client.value_codec key store ≡ ok (absent n)
      → All
          (IsForeign xxh3_64_with_seed client.value_codec key
            (client.params.candidate_buckets key).0)
          (probes store (client.params.candidate_buckets key).1)
  none_own n a e =
      let same : (store.candidate_buckets key).0 ≡ (client.params.candidate_buckets key).0 =
        ap (λ p. p.0) a.candidates in
      rw (← same, ← scanned_slots a)
        (locate_absent xxh3_64_with_seed client.value_codec key store n
          (rw (scanned_slots a) (a.few)) e)

  pub finish-Answers :
      (ctx : QueryCtx b) (resp : List b.Response) (l : Located)
      → Agrees
      → IsContext xxh3_64_with_seed b client key ctx resp
      → gather b client ctx resp client.params.arity 0
        ≡ ok (probes store (client.params.candidate_buckets key).1)
      → locate xxh3_64_with_seed client.value_codec key store ≡ ok l
      → Answers l (finish xxh3_64_with_seed b client key ctx resp client.delta.head)
  finish-Answers ctx resp (own balance) a context gathered e =
      let c = client.value_codec in
      let fp = (client.params.candidate_buckets key).0 in
      let split = own-IsSplit balance a e in
      let (front, others) = append-All (IsStored c) split.front ((fp, split.bytes) ∷ split.back) (
        rw (← split.parts)
          (probes-All (IsStored c) store (client.params.candidate_buckets key).1 a.slots)) in
      finish_found xxh3_64_with_seed b client key ctx resp split.front split.back split.bytes
        context a.fingerprint a.tag (gathered ∙ ap ok split.parts)
        (All-foreign_other xxh3_64_with_seed c key a.representable fp split.front front (
          All-other_fingerprint xxh3_64_with_seed c key a.representable fp split.front
            (split.before refl)))
        (All-foreign_other xxh3_64_with_seed c key a.representable fp split.back others.1
          split.after)
        (extract_key_tag-found xxh3_64_with_seed c key a.representable split.bytes balance
          others.0.1 a.tag split.decoded)
        (others.0.1.all) (others.0.1.size ∙ sym a.value_size)
      ∙ rw (split.decoded) refl
  finish-Answers ctx resp (absent n) a context gathered e =
      finish_not_found xxh3_64_with_seed b client key ctx resp
        (probes store (client.params.candidate_buckets key).1) context a.fingerprint a.tag gathered
        (All-foreign_other xxh3_64_with_seed client.value_codec key a.representable
          (client.params.candidate_buckets key).0
          (probes store (client.params.candidate_buckets key).1)
          (probes-All (IsStored client.value_codec) store (client.params.candidate_buckets key).1
            a.slots)
          (none_own n a e))
  finish-Answers ctx resp shadowed a context gathered e = tt
  finish-Answers ctx resp duplicate_tag a context gathered e = tt
  finish-Answers ctx resp corrupt a context gathered e = tt
