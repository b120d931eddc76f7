-- ===== src/Server/Verified/Found/Buckets.antt =====
-- The scan of `locate` by buckets is the scan of one list, and its only early return is on a duplicate.
use private_eth_getbalance_w.Prelude.{
  ℕ, zero, suc, ◌+◌, ◌≡◌, ◌≢◌, refl, sym, ◌∙◌, ap, List, [], ◌∷◌, ◌++◌, false, Option, none, some,
  inl, inr, Bool-cases,
}
use private_eth_getbalance_w.Prelude.{
  Outcome, ok, err, panic, ◌>>=◌, >>=-eq-err, >>=-cong, >>=_assoc, ok-injective, ◌==◌,
}
use private_eth_getbalance_w.Proto.Delta.{AddressHash}
use private_eth_getbalance_w.Proto.Value.{ValueCodec, Lookup, key_tag, extract_key_tag, decode}
use private_eth_getbalance_w.Server.Verified.{
  Store, Located, duplicate_tag, Scan, returned, conclude, tagged_slot, scan_slot, scan_bucket,
  scan_buckets,
}
use private_eth_getbalance_w.Server.Verified.Found.{slots_from, probes, lift-ne-err, scan_all}

module _ (xxh3_64_with_seed : AddressHash → ℕ → ℕ) (c : ValueCodec) (key : AddressHash)
    (fp : ℕ) where
  scan_all-append :
      (xs ys : List (ℕ × List ℕ)) (s : Scan)
      → scan_all xxh3_64_with_seed c key fp (xs ++ ys) s
        ≡ (scan_all xxh3_64_with_seed c key fp xs s >>= scan_all xxh3_64_with_seed c key fp ys)
  unfolding scan_all
  scan_all-append [] ys s = refl
  scan_all-append (x ∷ xs) ys s =
      >>=-cong (scan_slot xxh3_64_with_seed c key fp x s) _ _ (λ s1. scan_all-append xs ys s1)
      ∙ sym (
          >>=_assoc (scan_slot xxh3_64_with_seed c key fp x s)
            (scan_all xxh3_64_with_seed c key fp xs) (scan_all xxh3_64_with_seed c key fp ys))

  scan_bucket_all :
      (store : Store) (bucket left slot : ℕ) (s : Scan)
      → scan_bucket xxh3_64_with_seed c key store fp bucket left slot s
        ≡ scan_all xxh3_64_with_seed c key fp (slots_from store bucket left slot) s
  unfolding scan_bucket scan_all slots_from
  scan_bucket_all store bucket zero slot s = refl
  scan_bucket_all store bucket (suc left) slot s =
      >>=-cong (scan_slot xxh3_64_with_seed c key fp (store.slot_at bucket slot) s) _ _
        (λ s1. scan_bucket_all store bucket left (slot + 1) s1)

  pub scan_buckets_all :
      (store : Store) (buckets : List ℕ) (s : Scan)
      → scan_buckets xxh3_64_with_seed c key store fp buckets s
        ≡ scan_all xxh3_64_with_seed c key fp (probes store buckets) s
  unfolding scan_buckets scan_all probes
  scan_buckets_all store [] s = refl
  scan_buckets_all store (bucket ∷ buckets) s =
      let here = scan_bucket_all store bucket store.bucket_size 0 s in
      let slots : List (ℕ × List ℕ) = slots_from store bucket store.bucket_size 0 in
      ap (λ r. r >>= scan_buckets xxh3_64_with_seed c key store fp buckets) here
      ∙ >>=-cong (scan_all xxh3_64_with_seed c key fp slots s) _ _
          (λ s1. scan_buckets_all store buckets s1)
      ∙ sym (scan_all-append slots (probes store buckets) s)

  tagged_err :
      (bytes : List ℕ) (s : Scan) (o : Option Lookup) (x : Located)
      → tagged_slot xxh3_64_with_seed c key bytes s o ≡ err x
      → x ≡ duplicate_tag
  unfolding tagged_slot
  tagged_err bytes s (some l) x h = cc
  tagged_err bytes s none x h =
      lift-ne-err (decode xxh3_64_with_seed c key bytes) _ x duplicate_tag (λ l h'. cc) h

  slot_err :
      (slot : ℕ × List ℕ) (s : Scan) (x : Located)
      → scan_slot xxh3_64_with_seed c key fp slot s ≡ err x
      → x ≡ duplicate_tag
  unfolding scan_slot
  slot_err slot s x e = elim (Bool-cases (slot.0 == fp)) [
    | inr other ↦ let h : ok s ≡ err x = rw other at e in cc
    | inl match ↦
        lift-ne-err (extract_key_tag {E = ⊥} c slot.1) _ x duplicate_tag
          (λ stored h. elim (Bool-cases (stored == key_tag xxh3_64_with_seed c key)) [
            | inl tag ↦ tagged_err slot.1 s s.ours x (rw tag at h)
            | inr no_tag ↦ let h' : ok _ ≡ err x = rw no_tag at h in cc
          ])
          (rw match at e)
  ]

  all_err :
      (slots : List (ℕ × List ℕ)) (s : Scan) (x : Located)
      → scan_all xxh3_64_with_seed c key fp slots s ≡ err x
      → x ≡ duplicate_tag
  unfolding scan_all
  all_err [] s x e = cc
  all_err (slot ∷ slots) s x e =
      elim (>>=-eq-err (scan_slot xxh3_64_with_seed c key fp slot s)
        (scan_all xxh3_64_with_seed c key fp slots) x e) [
          | inl stops ↦ slot_err slot s x stops
          | inr later ↦ all_err slots later.0 x later.1
        ]

  abbrev pub start : Scan
  start = record { foreign_fp_matches = 0; foreign_seen_before_ours = false; ours = none }

  abbrev pub result_of : Scan → Located
  result_of s = conclude s.foreign_fp_matches s.foreign_seen_before_ours s.ours

  -- A result other than a duplicate comes from a whole scan.
  pub completed :
      (r : Outcome Located Scan) (slots : List (ℕ × List ℕ)) (found_here : Located)
      → scan_all xxh3_64_with_seed c key fp slots start ≡ r
      → returned (r >>= λ s. ok (result_of s)) ≡ ok found_here
      → found_here ≢ duplicate_tag
      → (s : Scan) × (scan_all xxh3_64_with_seed c key fp slots start ≡ ok s)
        × (result_of s ≡ found_here)
  completed (ok s) slots found_here q h other = (s, q, ok-injective (result_of s) found_here h)
  completed (err x) slots found_here q h other =
      absurd (other (sym (ok-injective x found_here h) ∙ all_err slots start x q))
  completed panic slots found_here q h other = cc
