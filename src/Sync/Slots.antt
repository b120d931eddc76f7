-- ===== src/Sync/Slots.antt =====
-- A slot of the store as the client reads it: the server's own slot is the client's match, and the server's
-- foreign slots are the client's others.
use private_eth_getbalance_w.Prelude.{
  ℕ, ◌%◌, ◌^◌, ◌<◌, ◌≡◌, ◌≢◌, sym, ◌∙◌, ap, arith, List, [], ◌∷◌, ◌++◌, ok, ok-injective, All, zero,
  suc, ◌+◌,
}
use private_eth_getbalance_w.Proto.Delta.{AddressHash, Balance}
use private_eth_getbalance_w.Proto.Value.{ValueCodec, found, key_tag, extract_key_tag, decode}
use private_eth_getbalance_w.Proto.Value.Decode.{IsRepresentable}
use private_eth_getbalance_w.Proto.Value.Total.{
  IsSlot, field, verdict, extract_key_tag-field, decode-verdict,
}
use private_eth_getbalance_w.Server.Verified.{Store}
use private_eth_getbalance_w.Server.Verified.Found.{slots_from, probes, IsForeign}
use private_eth_getbalance_w.Client.Pending.{ClientError}
use private_eth_getbalance_w.Client.Query.Select.{IsRead, IsMatch}

-- A slot's fingerprint is a u64, and its bytes are as many as a value of the codec has.
abbrev pub IsStored : ValueCodec → ℕ × List ℕ → Type 0
IsStored c slot = (slot.0 < 2 ^ 64) × IsSlot c slot.1

All-append :
    (P : ℕ × List ℕ → Type 0) (xs ys : List (ℕ × List ℕ)) → All P xs → All P ys → All P (xs ++ ys)
All-append P [] ys h k = k
All-append P (x ∷ xs) ys h k = (h.0, All-append P xs ys h.1 k)

pub append-All :
    (P : ℕ × List ℕ → Type 0) (xs ys : List (ℕ × List ℕ)) → All P (xs ++ ys) → All P xs × All P ys
append-All P [] ys h = (tt, h)
append-All P (x ∷ xs) ys h = let (front, back) = append-All P xs ys h.1 in ((h.0, front), back)

slots_from-All :
    (P : ℕ × List ℕ → Type 0) (store : Store) (bucket left slot : ℕ)
    → ((bucket slot : ℕ) → P (store.slot_at bucket slot))
    → All P (slots_from store bucket left slot)
unfolding slots_from
slots_from-All P store bucket zero slot h = tt
slots_from-All P store bucket (suc left) slot h =
    (h bucket slot, slots_from-All P store bucket left (slot + 1) h)

pub probes-All :
    (P : ℕ × List ℕ → Type 0) (store : Store) (buckets : List ℕ)
    → ((bucket slot : ℕ) → P (store.slot_at bucket slot))
    → All P (probes store buckets)
unfolding probes
probes-All P store [] h = tt
probes-All P store (bucket ∷ buckets) h =
    All-append P (slots_from store bucket store.bucket_size 0) (probes store buckets)
      (slots_from-All P store bucket store.bucket_size 0 h) (probes-All P store buckets h)

module _ (xxh3_64_with_seed : AddressHash → ℕ → ℕ) (c : ValueCodec) (key : AddressHash)
    (w : IsRepresentable c) where
  -- Bytes that decode to a balance have the key's tag.
  pub extract_key_tag-found :
      (bytes : List ℕ) (balance : Balance)
      → IsSlot c bytes
      → key_tag xxh3_64_with_seed c key < 2 ^ 64
      → decode xxh3_64_with_seed c key bytes ≡ ok (found balance)
      → extract_key_tag {E = ClientError} c bytes ≡ ok (key_tag xxh3_64_with_seed c key)
  extract_key_tag-found bytes balance h t e =
      let judged : verdict xxh3_64_with_seed c key bytes ≡ found balance =
        ok-injective _ _ (sym (decode-verdict xxh3_64_with_seed c key bytes w h.all) ∙ e) in
      let same : field 0 c.key_tag_bits bytes ≡ key_tag xxh3_64_with_seed c key = ground arith in
      extract_key_tag-field c bytes w h ∙ rw same (ap ok (omega (arith, t)))

  stored-IsRead :
      (fp : ℕ) (slot : ℕ × List ℕ)
      → IsStored c slot
      → IsRead c fp (key_tag xxh3_64_with_seed c key) slot
  stored-IsRead fp slot h = record {
    fingerprint = h.0;
    stored = field 0 c.key_tag_bits slot.1 % 2 ^ 64;
    small = ground arith;
    read = extract_key_tag-field c slot.1 w h.1;
  }

  -- A slot that is not the key's for the server is not for the client.
  foreign_other :
      (fp : ℕ) (slot : ℕ × List ℕ)
      → IsStored c slot
      → IsForeign xxh3_64_with_seed c key fp slot
      → IsMatch c fp (key_tag xxh3_64_with_seed c key) slot
      → ⊥
  foreign_other fp slot h foreign m =
      let tag : field 0 c.key_tag_bits slot.1 % 2 ^ 64 ≡ key_tag xxh3_64_with_seed c key =
        ok-injective _ _ (sym (extract_key_tag-field {E = ClientError} c slot.1 w h.1) ∙ m.1) in
      foreign m.0 (extract_key_tag-field c slot.1 w h.1 ∙ ap ok tag)

  pub All-foreign_other :
      (fp : ℕ) (slots : List (ℕ × List ℕ))
      → All (IsStored c) slots
      → All (IsForeign xxh3_64_with_seed c key fp) slots
      → All
          (λ slot.
            IsRead c fp (key_tag xxh3_64_with_seed c key) slot
            × (IsMatch c fp (key_tag xxh3_64_with_seed c key) slot → ⊥))
          slots
  All-foreign_other fp [] h k = tt
  All-foreign_other fp (slot ∷ slots) h k = (
    (stored-IsRead fp slot h.0, foreign_other fp slot h.0 k.0),
    All-foreign_other fp slots h.1 k.1,
  )

  pub All-other_fingerprint :
      (fp : ℕ) (slots : List (ℕ × List ℕ))
      → All (λ slot. slot.0 ≢ fp) slots
      → All (IsForeign xxh3_64_with_seed c key fp) slots
  All-other_fingerprint fp [] h = tt
  All-other_fingerprint fp (slot ∷ slots) h =
      ((λ e. absurd (h.0 e)), All-other_fingerprint fp slots h.1)
