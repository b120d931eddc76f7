-- ===== src/Server/Verified/Found.antt =====
-- The scan of `locate` over all slots as one list, and what one slot of it does.
pub mod Whole
pub mod Buckets
use private_eth_getbalance_w.Prelude.{
  ℕ, zero, suc, ◌+◌, ◌^◌, ◌<◌, ◌≡◌, ◌≢◌, refl, sym, ◌∙◌, ap, arith, List, [], ◌∷◌, ◌++◌, Bool,
  false, ◌||◌, Option, none, some, inl, inr, ◌⊎◌, Bool-cases,
}
use private_eth_getbalance_w.Prelude.{
  Outcome, ok, err, panic, ◌>>=◌, >>=-eq-ok, >>=-eq-err, >>=-cong, >>=_assoc, ok-injective, ltb,
  ◌==◌, ==_iff, length, All,
}
use private_eth_getbalance_w.Proto.Delta.{AddressHash}
use private_eth_getbalance_w.Proto.Value.{ValueCodec, Lookup, key_tag, extract_key_tag, decode}
use private_eth_getbalance_w.Server.Verified.{
  Store, Located, duplicate_tag, Scan, lift, returned, conclude, tagged_slot, scan_slot,
  scan_bucket, scan_buckets,
}

-- The slots of a bucket, and those of the buckets, in the order of the scan.
unfoldable pub slots_from : Store → ℕ → ℕ → ℕ → List (ℕ × List ℕ)
slots_from store bucket zero slot = []
slots_from store bucket (suc left) slot =
    store.slot_at bucket slot ∷ slots_from store bucket left (slot + 1)

unfoldable pub probes : Store → List ℕ → List (ℕ × List ℕ)
probes store [] = []
probes store (bucket ∷ buckets) =
    slots_from store bucket store.bucket_size 0 ++ probes store buckets

pub lift-eq-ok :
    {E : Type 0} {A : Type 0} (r : Outcome ⊥ A) (a : A) → lift {E = E} r ≡ ok a → r ≡ ok a
lift-eq-ok (ok b) a h = cc
lift-eq-ok (err e) a h = absurd e
lift-eq-ok panic a h = cc

-- The only early return is the one on a duplicate.
pub lift-ne-err :
    {E : Type 0} {A B : Type 0} (r : Outcome ⊥ A) (next : A → Outcome E B) (x y : E)
    → ((a : A) → next a ≡ err x → x ≡ y)
    → (lift r >>= next) ≡ err x
    → x ≡ y
lift-ne-err (ok a) next x y k h = k a h
lift-ne-err (err e) next x y k h = absurd e
lift-ne-err panic next x y k h = cc

module _ (xxh3_64_with_seed : AddressHash → ℕ → ℕ) (c : ValueCodec) (key : AddressHash)
    (fp : ℕ) where
  -- The slot is not the key's: another fingerprint, or another tag.
  abbrev pub IsForeign : ℕ × List ℕ → Type 0
  IsForeign slot =
      slot.0 ≡ fp → extract_key_tag {E = ⊥} c slot.1 ≢ ok (key_tag xxh3_64_with_seed c key)

  unfoldable pub scan_all : List (ℕ × List ℕ) → Scan → Outcome Located Scan
  scan_all [] s = ok s
  scan_all (slot ∷ slots) s = do s ← scan_slot xxh3_64_with_seed c key fp slot s; scan_all slots s

  -- The slots split at the key's own: what stands before it, and after it.
  pub record IsSplit (slots : List (ℕ × List ℕ)) (l : Lookup) (seen : Bool) : Type 0 where
    pub front : List (ℕ × List ℕ)
    pub bytes : List ℕ
    pub back : List (ℕ × List ℕ)
    pub parts : slots ≡ front ++ (fp, bytes) ∷ back
    pub decoded : decode xxh3_64_with_seed c key bytes ≡ ok l
    pub before : seen ≡ false → All (λ slot. slot.0 ≢ fp) front
    pub after : All IsForeign back

  -- One slot that the scan passes.
  pub record Passed (slot : ℕ × List ℕ) (s s' : Scan) : Type 0 where
    pub foreign : IsForeign slot
    pub ours : s'.ours ≡ s.ours
    pub seen : s'.foreign_seen_before_ours ≡ s.foreign_seen_before_ours
    pub counted :
        (s.foreign_fp_matches + 1 < 2 ^ 32
          → (slot.0 ≡ fp → s'.foreign_fp_matches ≡ s.foreign_fp_matches + 1)
            × (slot.0 ≢ fp → s'.foreign_fp_matches ≡ s.foreign_fp_matches))

  -- The slot that the scan takes for the key's.
  pub record Taken (slot : ℕ × List ℕ) (s s' : Scan) : Type 0 where
    pub none_yet : s.ours ≡ none
    pub fingerprint : slot.0 ≡ fp
    pub l : Lookup
    pub decoded : decode xxh3_64_with_seed c key slot.1 ≡ ok l
    pub result : s' ≡ record {
      foreign_fp_matches = s.foreign_fp_matches;
      foreign_seen_before_ours = s.foreign_seen_before_ours || ltb 0 s.foreign_fp_matches;
      ours = some l;
    }

  -- A slot with the key's fingerprint and tag is taken, unless there is one already.
  tagged :
      (slot : ℕ × List ℕ) (s s' : Scan) (o : Option Lookup)
      → slot.0 ≡ fp
      → s.ours ≡ o
      → tagged_slot xxh3_64_with_seed c key slot.1 s o ≡ ok s'
      → Taken slot s s'
  unfolding tagged_slot
  tagged slot s s' (some l) match ours e = cc
  tagged slot s s' none match ours e = opened (decode xxh3_64_with_seed c key slot.1) refl e
    where
      opened :
          (r : Outcome ⊥ Lookup)
          → decode xxh3_64_with_seed c key slot.1 ≡ r
          → (lift {E = Located} r >>= λ l. ok (record {
            foreign_fp_matches = s.foreign_fp_matches;
            foreign_seen_before_ours = s.foreign_seen_before_ours || ltb 0 s.foreign_fp_matches;
            ours = some l;
          }))
            ≡ ok s'
          → Taken slot s s'
      opened (ok l) q h = record {
        none_yet = ours;
        fingerprint = match;
        l = l;
        decoded = q;
        result = sym (ok-injective _ s' h);
      }
      opened (err x) q h = absurd x
      opened panic q h = cc

  pub step :
      (slot : ℕ × List ℕ) (s s' : Scan)
      → scan_slot xxh3_64_with_seed c key fp slot s ≡ ok s'
      → Passed slot s s' ⊎ Taken slot s s'
  unfolding scan_slot
  step slot s s' e = elim (Bool-cases (slot.0 == fp)) [
    | inr other ↦
        let same : s ≡ s' = ok-injective s s' (rw other at e) in
        let differs : slot.0 ≢ fp = λ h. cc ((==_iff slot.0 fp).1 h) in
        inl (
          rw (← same) (record {
            foreign = λ h. absurd (differs h);
            ours = refl;
            seen = refl;
            counted = λ room. ((λ h. absurd (differs h)), λ h. refl);
          }))
    | inl match ↦
        let same : slot.0 ≡ fp = (==_iff slot.0 fp).0 match in
        let (stored, q0, e1) =
          >>=-eq-ok (lift {E = Located} (extract_key_tag {E = ⊥} c slot.1)) _ (rw match at e) in
        let q : extract_key_tag {E = ⊥} c slot.1 ≡ ok stored = lift-eq-ok _ stored q0 in
        elim (Bool-cases (stored == key_tag xxh3_64_with_seed c key)) [
          | inl tag ↦ inr (tagged slot s s' s.ours same refl (rw tag at e1))
          | inr no_tag ↦
              let next = ok-injective _ s' (rw no_tag at e1) in
              inl (
                rw (← next) (record {
                  foreign = λ h h'. cc ((==_iff stored _).1 (ok-injective stored _ (sym q ∙ h')));
                  ours = refl;
                  seen = refl;
                  counted = λ room. ((λ h. omega arith), λ h. absurd (h same));
                }))
        ]
  ]
