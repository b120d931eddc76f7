-- ===== src/Server/Verified/Panics.antt =====
-- `locate` does not panic on a store whose slots have the codec's size.
use private_eth_getbalance_w.Prelude.{
  ℕ, ◌≢◌, refl, List, [], ◌∷◌, Bool, true, false, Option, none, some, inl, inr, Bool-cases,
}
use private_eth_getbalance_w.Prelude.{
  Outcome, ok, err, panic, ◌>>=◌, take, ◌==◌, if◌then◌else◌, All,
}
use private_eth_getbalance_w.Proto.Delta.{AddressHash}
use private_eth_getbalance_w.Proto.Value.{ValueCodec, Lookup}
use private_eth_getbalance_w.Proto.Value.Decode.{IsRepresentable}
use private_eth_getbalance_w.Proto.Value.Total.{IsSlot, extract_key_tag-field, decode-verdict}
use private_eth_getbalance_w.Server.Verified.{
  Store, Located, Scan, returned, tagged_slot, scan_slot, locate,
}
use private_eth_getbalance_w.Server.Verified.Found.{scan_all}
use private_eth_getbalance_w.Server.Verified.Found.Buckets.{start, scan_buckets_all}
use private_eth_getbalance_w.Server.Verified.Locate.{key_slots}

>>=-ne-panic :
    {E : Type 0} {A B : Type 0} (m : Outcome E A) (f : A → Outcome E B)
    → m ≢ panic
    → ((a : A) → f a ≢ panic)
    → (m >>= f) ≢ panic
>>=-ne-panic (ok a) f h k = k a
>>=-ne-panic (err e) f h k = λ p. cc
>>=-ne-panic panic f h k = λ p. h refl

returned-ne-panic : (r : Outcome Located Located) → r ≢ panic → returned r ≢ panic
returned-ne-panic (ok l) h = λ p. cc
returned-ne-panic (err l) h = λ p. cc
returned-ne-panic panic h = λ p. h refl

module _ (xxh3_64_with_seed : AddressHash → ℕ → ℕ) (c : ValueCodec) (key : AddressHash)
    (w : IsRepresentable c) where
  tagged-ne-panic :
      (bytes : List ℕ) (s : Scan) (o : Option Lookup)
      → IsSlot c bytes
      → tagged_slot xxh3_64_with_seed c key bytes s o ≢ panic
  unfolding tagged_slot
  tagged-ne-panic bytes s (some l) b = λ p. cc
  tagged-ne-panic bytes s none b =
      rw (decode-verdict xxh3_64_with_seed c key bytes w b.all) (λ p. cc)

  slot-ne-panic :
      (fp : ℕ) (slot : ℕ × List ℕ) (s : Scan)
      → IsSlot c slot.1
      → scan_slot xxh3_64_with_seed c key fp slot s ≢ panic
  unfolding scan_slot
  slot-ne-panic fp slot s b = elim (Bool-cases (slot.0 == fp)) [
    | inr other ↦ rw other (λ p. cc)
    | inl match ↦
        rw (match, extract_key_tag-field c slot.1 w b)
          (chosen _ _ _ (tagged-ne-panic slot.1 s s.ours b))
  ]
    where
      chosen :
          (b : Bool) (r : Outcome Located Scan) (t : Scan)
          → r ≢ panic
          → (if b then r else ok t) ≢ panic
      chosen true r t h = h
      chosen false r t h = λ p. cc

  all-ne-panic :
      (fp : ℕ) (slots : List (ℕ × List ℕ)) (s : Scan)
      → All (λ slot. IsSlot c slot.1) slots
      → scan_all xxh3_64_with_seed c key fp slots s ≢ panic
  unfolding scan_all
  all-ne-panic fp [] s a = λ p. cc
  all-ne-panic fp (slot ∷ slots) s a =
      >>=-ne-panic (scan_slot xxh3_64_with_seed c key fp slot s) _ (slot-ne-panic fp slot s a.0)
        (λ s1. all-ne-panic fp slots s1 a.1)

  -- With a codec of representable widths, `locate` does not panic on a store whose candidate slots all
  -- hold bytes of the codec's size.
  pub locate-ne-panic :
      (store : Store)
      → All (λ slot. IsSlot c slot.1) (key_slots xxh3_64_with_seed c key store)
      → locate xxh3_64_with_seed c key store ≢ panic
  unfolding locate
  locate-ne-panic store a =
      let fp : ℕ = (store.candidate_buckets key).0 in
      rw
        (scan_buckets_all xxh3_64_with_seed c key fp store
          (take store.arity (store.candidate_buckets key).1) (start xxh3_64_with_seed c key fp))
        (returned-ne-panic _ (
          >>=-ne-panic _ _ (all-ne-panic fp (key_slots xxh3_64_with_seed c key store) _ a)
            (λ s p. cc)))
