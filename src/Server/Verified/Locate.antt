-- ===== src/Server/Verified/Locate.antt =====
-- What `locate` promises of the slot that it reports.
use private_eth_getbalance_w.Prelude.{
  ℕ, ◌^◌, ◌<◌, ◌≡◌, ◌≢◌, refl, arith, List, Bool, true, false, Option, none, some, inl, inr,
}
use private_eth_getbalance_w.Prelude.{ok, take, length, All}
use private_eth_getbalance_w.Proto.Delta.{AddressHash, Balance}
use private_eth_getbalance_w.Proto.Value.{ValueCodec, Lookup, found, not_found, decode_failed}
use private_eth_getbalance_w.Server.Verified.{
  Store, Located, own, absent, duplicate_tag, Scan, conclude, locate,
}
use private_eth_getbalance_w.Server.Verified.Found.{probes, IsForeign, IsSplit}
use private_eth_getbalance_w.Server.Verified.Found.Whole.{Scanned, scan_none}
use private_eth_getbalance_w.Server.Verified.Found.Buckets.{
  start, result_of, completed, scan_buckets_all,
}

conclude_own :
    (n : ℕ) (seen : Bool) (o : Option Lookup) (b : Balance)
    → conclude n seen o ≡ own b
    → (o ≡ some (found b)) × (seen ≡ false)
conclude_own n seen none b h = cc
conclude_own n true (some l) b h = cc
conclude_own n false (some (found b')) b h = (cc, refl)
conclude_own n false (some not_found) b h = cc
conclude_own n false (some decode_failed) b h = cc

conclude_absent :
    (n m : ℕ) (seen : Bool) (o : Option Lookup) → conclude n seen o ≡ absent m → o ≡ none
conclude_absent n m seen none h = refl
conclude_absent n m true (some l) h = cc
conclude_absent n m false (some (found b)) h = cc
conclude_absent n m false (some not_found) h = cc
conclude_absent n m false (some decode_failed) h = cc

module _ (xxh3_64_with_seed : AddressHash → ℕ → ℕ) (c : ValueCodec) (key : AddressHash)
    (store : Store) where
  -- The fingerprint of the key, and the slots of its candidate buckets in probe order.
  abbrev pub key_fp : ℕ
  key_fp = (store.candidate_buckets key).0

  abbrev pub key_slots : List (ℕ × List ℕ)
  key_slots = probes store (take store.arity (store.candidate_buckets key).1)

  scanned :
      (r : Located)
      → length key_slots < 2 ^ 32
      → locate xxh3_64_with_seed c key store ≡ ok r
      → r ≢ duplicate_tag
      → (s : Scan) × (result_of xxh3_64_with_seed c key key_fp s ≡ r)
        × Scanned xxh3_64_with_seed c key key_fp key_slots (start xxh3_64_with_seed c key key_fp) s
  unfolding locate
  scanned r room e other =
      let same =
        scan_buckets_all xxh3_64_with_seed c key key_fp store
          (take store.arity (store.candidate_buckets key).1)
          (start xxh3_64_with_seed c key key_fp) in
      let (s, q, h) =
        completed xxh3_64_with_seed c key key_fp _ key_slots r refl (rw same at e) other in
      (s, h, scan_none xxh3_64_with_seed c key key_fp key_slots _ s refl refl (omega arith) q)

  -- Where `locate` reports the key's own entry, over fewer than 2^32 slots, the slots of the scan split
  -- at one with the key's fingerprint whose bytes decode to the reported balance: none before it has
  -- the fingerprint, and none after it both the fingerprint and the key's tag.
  pub locate_own :
      (balance : Balance)
      → length key_slots < 2 ^ 32
      → locate xxh3_64_with_seed c key store ≡ ok (own balance)
      → IsSplit xxh3_64_with_seed c key key_fp key_slots (found balance) false
  locate_own balance room e =
      let (s, h, seen_all) = scanned (own balance) room e (λ q. cc) in
      let (o, seen) =
        conclude_own s.foreign_fp_matches s.foreign_seen_before_ours s.ours balance h in
      elim seen_all [
        | inl (unseen, rest) ↦ absurd (cc unseen)
        | inr (l, ours, zero_then, split) ↦
            let same : l ≡ found balance = cc in rw (← same, ← seen) split
      ]

  -- Where `locate` reports that the key is absent, over fewer than 2^32 slots, no slot of its candidate
  -- buckets has both its fingerprint and its tag.
  pub locate_absent :
      (n : ℕ)
      → length key_slots < 2 ^ 32
      → locate xxh3_64_with_seed c key store ≡ ok (absent n)
      → All (IsForeign xxh3_64_with_seed c key key_fp) key_slots
  locate_absent n room e =
      let (s, h, seen_all) = scanned (absent n) room e (λ q. cc) in
      let o = conclude_absent s.foreign_fp_matches n s.foreign_seen_before_ours s.ours h in
      elim seen_all [
        | inl (unseen, rest) ↦ rest
        | inr (l, ours, zero_then, split) ↦ absurd (cc ours)
      ]
