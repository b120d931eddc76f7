-- ===== src/Server/Verified/Get.antt =====
-- What the verified read `get` returns, on both of its ways to an answer.
use private_eth_getbalance_w.Prelude.{
  ℕ, zero, suc, ◌+◌, ◌^◌, ◌<◌, ◌≡◌, refl, sym, ◌∙◌, ap, List, [], ◌∷◌, ◌++◌, Bool-cases, inl, inr,
  Option, none, some,
}
use private_eth_getbalance_w.Prelude.{
  Outcome, ok, err, panic, ◌>>=◌, ◌>>◌, >>=-eq-ok, >>=-eq-err, >>=-cong, >>=_assoc, take, ◌==◌,
  ==_iff, length, All,
}
use private_eth_getbalance_w.Proto.Delta.{AddressHash, Balance}
use private_eth_getbalance_w.Proto.Value.{
  ValueCodec, Lookup, found, not_found, decode_failed, key_tag, extract_key_tag, decode,
}
use private_eth_getbalance_w.Server.Verified.{
  Store, Located, own, absent, shadowed, duplicate_tag, corrupt, lift, read_lookup, reread_result,
  reread_slot, reread_bucket, reread_buckets, reread, get_located, get, locate,
}
use private_eth_getbalance_w.Server.Verified.Found.{probes, slots_from, IsForeign, lift-eq-ok}
use private_eth_getbalance_w.Server.Verified.Locate.{key_fp, key_slots, locate_own, locate_absent}

read_lookup-eq-ok : (l : Lookup) (b : Balance) → read_lookup l ≡ ok b → l ≡ found b
read_lookup-eq-ok (found x) b h = cc
read_lookup-eq-ok not_found b h = cc
read_lookup-eq-ok decode_failed b h = cc

reread_result-some :
    (run : Outcome (Outcome Located Balance) (Unit {0})) (b : Balance)
    → reread_result run ≡ ok (some b)
    → run ≡ err (ok b)
reread_result-some (ok done) b h = cc
reread_result-some (err (ok x)) b h = cc
reread_result-some (err (err l)) b h = cc
reread_result-some (err panic) b h = cc
reread_result-some panic b h = cc

reread_result-none :
    (run : Outcome (Outcome Located Balance) (Unit {0})) → reread_result run ≡ ok none → ⊥
reread_result-none (ok done) h = cc
reread_result-none (err (ok x)) h = cc
reread_result-none (err (err l)) h = cc
reread_result-none (err panic) h = cc
reread_result-none panic h = cc

lift->>=-err :
    {E : Type 0} {A B : Type 0} (r : Outcome ⊥ A) (next : A → Outcome E B) (x : E)
    → (lift r >>= next) ≡ err x
    → (a : A) × (r ≡ ok a) × (next a ≡ err x)
lift->>=-err (ok a) next x h = (a, refl, h)
lift->>=-err (err e) next x h = absurd e
lift->>=-err panic next x h = cc

module _ (xxh3_64_with_seed : AddressHash → ℕ → ℕ) (c : ValueCodec) (key : AddressHash) where
  -- The second scan over all slots as one list.
  unfoldable reread_all : ℕ → List (ℕ × List ℕ) → Outcome (Outcome Located Balance) (Unit {0})
  reread_all fp [] = ok tt
  reread_all fp (slot ∷ slots) = reread_slot xxh3_64_with_seed c key fp slot >> reread_all fp slots

  reread_all-append :
      (fp : ℕ) (xs ys : List (ℕ × List ℕ))
      → reread_all fp (xs ++ ys) ≡ (reread_all fp xs >> reread_all fp ys)
  unfolding reread_all
  reread_all-append fp [] ys = refl
  reread_all-append fp (x ∷ xs) ys =
      >>=-cong (reread_slot xxh3_64_with_seed c key fp x) _ _ (λ u. reread_all-append fp xs ys)
      ∙ sym (
          >>=_assoc (reread_slot xxh3_64_with_seed c key fp x) (λ u. reread_all fp xs)
            (λ u. reread_all fp ys))

  reread_bucket_all :
      (store : Store) (fp bucket left slot : ℕ)
      → reread_bucket xxh3_64_with_seed c key store fp bucket left slot
        ≡ reread_all fp (slots_from store bucket left slot)
  unfolding reread_bucket reread_all slots_from
  reread_bucket_all store fp bucket zero slot = refl
  reread_bucket_all store fp bucket (suc left) slot =
      >>=-cong (reread_slot xxh3_64_with_seed c key fp (store.slot_at bucket slot)) _ _
        (λ u. reread_bucket_all store fp bucket left (slot + 1))

  reread_buckets_all :
      (store : Store) (fp : ℕ) (buckets : List ℕ)
      → reread_buckets xxh3_64_with_seed c key store fp buckets
        ≡ reread_all fp (probes store buckets)
  unfolding reread_buckets reread_all probes
  reread_buckets_all store fp [] = refl
  reread_buckets_all store fp (bucket ∷ buckets) =
      let slots : List (ℕ × List ℕ) = slots_from store bucket store.bucket_size 0 in
      ap (λ r. r >> reread_buckets xxh3_64_with_seed c key store fp buckets)
        (reread_bucket_all store fp bucket store.bucket_size 0)
      ∙ >>=-cong (reread_all fp slots) _ _ (λ u. reread_buckets_all store fp buckets)
      ∙ sym (reread_all-append fp slots (probes store buckets))

  -- A slot of the list that has the fingerprint, and whose bytes decode to the balance.
  pub record Holds (fp : ℕ) (slots : List (ℕ × List ℕ)) (b : Balance) : Type 0 where
    pub front : List (ℕ × List ℕ)
    pub bytes : List ℕ
    pub back : List (ℕ × List ℕ)
    pub parts : slots ≡ front ++ (fp, bytes) ∷ back
    pub decoded : decode xxh3_64_with_seed c key bytes ≡ ok (found b)

  reread_slot_found :
      (fp : ℕ) (slot : ℕ × List ℕ) (b : Balance)
      → reread_slot xxh3_64_with_seed c key fp slot ≡ err (ok b)
      → (slot.0 ≡ fp) × (decode xxh3_64_with_seed c key slot.1 ≡ ok (found b))
  unfolding reread_slot
  reread_slot_found fp (slot_fp, bytes) b h = elim (Bool-cases (slot_fp == fp)) [
    | inr other ↦ absurd (cc (rw other at h))
    | inl same ↦
        let (tag, t, k) = lift->>=-err (extract_key_tag {E = ⊥} c bytes) _ (ok b) (rw same at h) in
        elim (Bool-cases (tag == key_tag xxh3_64_with_seed c key)) [
          | inr wrong ↦ absurd (cc (rw wrong at k))
          | inl right ↦
              let (l, d, e) =
                lift->>=-err (decode xxh3_64_with_seed c key bytes) (λ l. err (read_lookup l))
                  (ok b) (rw right at k) in
              let is : l ≡ found b = read_lookup-eq-ok l b (cc e) in
              ((==_iff slot_fp fp).0 same, d ∙ ap ok is)
        ]
  ]

  Holds-later :
      (fp : ℕ) (slot : ℕ × List ℕ) (slots : List (ℕ × List ℕ)) (b : Balance)
      → Holds fp slots b
      → Holds fp (slot ∷ slots) b
  Holds-later fp slot slots b h = record {
    front = slot ∷ h.front;
    bytes = h.bytes;
    back = h.back;
    parts = ap (λ xs. slot ∷ xs) h.parts;
    decoded = h.decoded;
  }

  Holds-here :
      (fp : ℕ) (slot : ℕ × List ℕ) (slots : List (ℕ × List ℕ)) (b : Balance)
      → reread_slot xxh3_64_with_seed c key fp slot ≡ err (ok b)
      → Holds fp (slot ∷ slots) b
  Holds-here fp (slot_fp, bytes) slots b h =
      let (same, d) = reread_slot_found fp (slot_fp, bytes) b h in
      record { front = []; bytes = bytes; back = slots; parts = rw same refl; decoded = d }

  reread_all_found :
      (fp : ℕ) (slots : List (ℕ × List ℕ)) (b : Balance)
      → reread_all fp slots ≡ err (ok b)
      → Holds fp slots b
  unfolding reread_all
  reread_all_found fp [] b h = absurd (cc h)
  reread_all_found fp (slot ∷ slots) b h =
      elim (>>=-eq-err (reread_slot xxh3_64_with_seed c key fp slot) (λ u. reread_all fp slots)
        (ok b) h) [
          | inl here ↦ Holds-here fp slot slots b here
          | inr (u, later) ↦ Holds-later fp slot slots b (reread_all_found fp slots b later)
        ]

  module _ (store : Store) where
    abbrev own_fp : ℕ
    own_fp = key_fp xxh3_64_with_seed c key store

    abbrev own_slots : List (ℕ × List ℕ)
    own_slots = key_slots xxh3_64_with_seed c key store

    get_located-some :
        (l : Located) (b : Balance)
        → length own_slots < 2 ^ 32
        → locate xxh3_64_with_seed c key store ≡ ok l
        → get_located xxh3_64_with_seed c key store l ≡ ok (some b)
        → Holds own_fp own_slots b
    unfolding get_located reread
    get_located-some (own x) b room at h =
        let same : x ≡ b = cc h in
        let split = locate_own xxh3_64_with_seed c key store b room (rw same at at) in
        record {
          front = split.front;
          bytes = split.bytes;
          back = split.back;
          parts = split.parts;
          decoded = split.decoded;
        }
    get_located-some (absent n) b room at h = absurd (cc h)
    get_located-some shadowed b room at h = reread_all_found own_fp own_slots b (
        sym (reread_buckets_all store own_fp (take store.arity (store.candidate_buckets key).1))
        ∙ reread_result-some _ b h)
    get_located-some duplicate_tag b room at h = absurd (cc h)
    get_located-some corrupt b room at h = absurd (cc h)

    get_located-none :
        (l : Located)
        → length own_slots < 2 ^ 32
        → locate xxh3_64_with_seed c key store ≡ ok l
        → get_located xxh3_64_with_seed c key store l ≡ ok none
        → All (IsForeign xxh3_64_with_seed c key own_fp) own_slots
    unfolding get_located reread
    get_located-none (own x) room at h = absurd (cc h)
    get_located-none (absent n) room at h = locate_absent xxh3_64_with_seed c key store n room at
    get_located-none shadowed room at h = absurd (reread_result-none _ h)
    get_located-none duplicate_tag room at h = absurd (cc h)
    get_located-none corrupt room at h = absurd (cc h)

    -- Over fewer than 2^32 slots, a balance that `get` reads is the one that the bytes of a slot with the
    -- key's fingerprint among its candidate slots decode to; and where `get` reads that there is none,
    -- no candidate slot has both the fingerprint and the key's tag.
    pub get_sound :
        (o : Option Balance)
        → length own_slots < 2 ^ 32
        → get xxh3_64_with_seed c key store ≡ ok o
        → ((b : Balance) → o ≡ some b → Holds own_fp own_slots b)
          × (o ≡ none → All (IsForeign xxh3_64_with_seed c key own_fp) own_slots)
    unfolding get
    get_sound o room h =
        let (l, at, rest) = >>=-eq-ok (lift (locate xxh3_64_with_seed c key store)) _ h in
        let located = lift-eq-ok (locate xxh3_64_with_seed c key store) l at in
        (
          (λ b e. get_located-some l b room located (rw e at rest)),
          (λ e. get_located-none l room located (rw e at rest)),
        )
