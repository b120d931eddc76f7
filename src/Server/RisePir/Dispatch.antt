-- ===== src/Server/RisePir/Dispatch.antt =====
-- The verified dispatch of one change: what each kind of write says of the store.
use private_eth_getbalance_w.Prelude.{
  ℕ, ◌≡◌, ◌≢◌, refl, sym, ap, List, Outcome, ok, err, panic, Bool-cases, inl, inr, ◌==◌, ==_iff,
  ok-injective,
}
use private_eth_getbalance_w.Proto.Delta.{AddressHash, Balance}
use private_eth_getbalance_w.Proto.Value.{ValueCodec, ValueError, encode}
use private_eth_getbalance_w.Server.Verified.{
  Located, own, absent, shadowed, duplicate_tag, corrupt, lift, locate,
}
use private_eth_getbalance_w.Server.Verified.Found.{lift-eq-ok}
use private_eth_getbalance_w.Server.RisePir.{
  CuckooError, ChangeKind, kind_insert, kind_update, kind_delete, noop_delete, Cuckoo, deleted,
  updated, inserted, map_encode_error, delete_located, write_located, dispatch, apply_change,
}
use private_eth_getbalance_w.Server.RisePir.Apply.Counts.{and_then-eq-ok}

map_encode_error-eq-ok :
    {A : Type 0} (run : Outcome ValueError A) (a : A) → map_encode_error run ≡ ok a → run ≡ ok a
map_encode_error-eq-ok (ok b) a h = cc
map_encode_error-eq-ok (err e) a h = cc
map_encode_error-eq-ok panic a h = cc

module _ (xxh3_64_with_seed : AddressHash → ℕ → ℕ) {S : Type 0} (cuckoo : Cuckoo S)
    (codec : ValueCodec) (addr : AddressHash) where
  -- What stands behind a change of a kind to `balance` that took a store to another.
  unfoldable pub IsVerified : Balance → S → ChangeKind → S → Type 0
  IsVerified balance store kind_delete store' =
      (balance ≡ 0)
      × (b : Balance) × (locate xxh3_64_with_seed codec addr (cuckoo.slots store) ≡ ok (own b))
      × (cuckoo.delete addr store ≡ (ok tt, store'))
  IsVerified balance store noop_delete store' =
      (balance ≡ 0)
      × (n : ℕ) × (locate xxh3_64_with_seed codec addr (cuckoo.slots store) ≡ ok (absent n))
      × (store' ≡ store)
  IsVerified balance store kind_update store' =
      (balance ≢ 0)
      × (b : Balance) × (encoded : List ℕ) × (locate xxh3_64_with_seed codec addr
            (cuckoo.slots store)
          ≡ ok (own b))
      × (encode xxh3_64_with_seed codec addr balance ≡ ok encoded)
      × (cuckoo.update addr encoded store ≡ (ok tt, store'))
  IsVerified balance store kind_insert store' =
      (balance ≢ 0)
      × (n : ℕ) × (encoded : List ℕ) × (locate xxh3_64_with_seed codec addr (cuckoo.slots store)
          ≡ ok (absent n))
      × (encode xxh3_64_with_seed codec addr balance ≡ ok encoded)
      × (cuckoo.insert addr encoded store ≡ (ok tt, store'))

  deleted-eq-ok :
      (run : Outcome CuckooError (Unit {0}) × S) (kind : ChangeKind) (store' : S)
      → deleted run ≡ (ok kind, store')
      → (kind_delete ≡ kind) × (run ≡ (ok tt, store'))
  deleted-eq-ok (ok done, s) kind store' h =
      (ok-injective kind_delete kind (ap (λ p. p.0) h), ap (λ x. (ok tt, x)) (ap (λ p. p.1) h))
  deleted-eq-ok (err e, s) kind store' h = absurd (cc (ap (λ p. p.0) h))
  deleted-eq-ok (panic, s) kind store' h = absurd (cc (ap (λ p. p.0) h))

  updated-eq-ok :
      (run : Outcome CuckooError (Unit {0}) × S) (kind : ChangeKind) (store' : S)
      → updated run ≡ (ok kind, store')
      → (kind_update ≡ kind) × (run ≡ (ok tt, store'))
  updated-eq-ok (ok done, s) kind store' h =
      (ok-injective kind_update kind (ap (λ p. p.0) h), ap (λ x. (ok tt, x)) (ap (λ p. p.1) h))
  updated-eq-ok (err e, s) kind store' h = absurd (cc (ap (λ p. p.0) h))
  updated-eq-ok (panic, s) kind store' h = absurd (cc (ap (λ p. p.0) h))

  inserted-eq-ok :
      (run : Outcome CuckooError (Unit {0}) × S) (kind : ChangeKind) (store' : S)
      → inserted run ≡ (ok kind, store')
      → (kind_insert ≡ kind) × (run ≡ (ok tt, store'))
  inserted-eq-ok (ok done, s) kind store' h =
      (ok-injective kind_insert kind (ap (λ p. p.0) h), ap (λ x. (ok tt, x)) (ap (λ p. p.1) h))
  inserted-eq-ok (err CuckooError.table_full, s) kind store' h = absurd (cc (ap (λ p. p.0) h))
  inserted-eq-ok (err CuckooError.not_found, s) kind store' h = absurd (cc (ap (λ p. p.0) h))
  inserted-eq-ok (err (CuckooError.invalid_params m), s) kind store' h =
      absurd (cc (ap (λ p. p.0) h))
  inserted-eq-ok (panic, s) kind store' h = absurd (cc (ap (λ p. p.0) h))

  delete_located-eq-ok :
      (l : Located) (store store' : S) (kind : ChangeKind)
      → locate xxh3_64_with_seed codec addr (cuckoo.slots store) ≡ ok l
      → delete_located xxh3_64_with_seed cuckoo codec addr l store ≡ (ok kind, store')
      → IsVerified 0 store kind store'
  unfolding delete_located IsVerified
  delete_located-eq-ok (own b) store store' kind at h =
      let (k, run) = deleted-eq-ok _ kind store' h in rw (← k) (refl, b, at, run)
  delete_located-eq-ok (absent n) store store' kind at h =
      let k : noop_delete ≡ kind = ok-injective noop_delete kind (ap (λ p. p.0) h) in
      rw (← k) (refl, n, at, sym (ap (λ p. p.1) h))
  delete_located-eq-ok shadowed store store' kind at h = absurd (cc (ap (λ p. p.0) h))
  delete_located-eq-ok duplicate_tag store store' kind at h = absurd (cc (ap (λ p. p.0) h))
  delete_located-eq-ok corrupt store store' kind at h = absurd (cc (ap (λ p. p.0) h))

  write_located-eq-ok :
      (l : Located) (balance : Balance) (encoded : List ℕ) (store store' : S) (kind : ChangeKind)
      → balance ≢ 0
      → locate xxh3_64_with_seed codec addr (cuckoo.slots store) ≡ ok l
      → encode xxh3_64_with_seed codec addr balance ≡ ok encoded
      → write_located xxh3_64_with_seed cuckoo codec addr encoded l store ≡ (ok kind, store')
      → IsVerified balance store kind store'
  unfolding write_located IsVerified
  write_located-eq-ok (own b) balance encoded store store' kind nz at enc h =
      let (k, run) = updated-eq-ok _ kind store' h in rw (← k) (nz, b, encoded, at, enc, run)
  write_located-eq-ok (absent n) balance encoded store store' kind nz at enc h =
      let (k, run) = inserted-eq-ok _ kind store' h in rw (← k) (nz, n, encoded, at, enc, run)
  write_located-eq-ok shadowed balance encoded store store' kind nz at enc h =
      absurd (cc (ap (λ p. p.0) h))
  write_located-eq-ok duplicate_tag balance encoded store store' kind nz at enc h =
      absurd (cc (ap (λ p. p.0) h))
  write_located-eq-ok corrupt balance encoded store store' kind nz at enc h =
      absurd (cc (ap (λ p. p.0) h))

  dispatched :
      (balance : Balance) (l : Located) (store store' : S) (kind : ChangeKind)
      → locate xxh3_64_with_seed codec addr (cuckoo.slots store) ≡ ok l
      → dispatch xxh3_64_with_seed cuckoo codec (addr, balance) l store ≡ (ok kind, store')
      → IsVerified balance store kind store'
  unfolding dispatch
  dispatched balance l store store' kind at h = elim (Bool-cases (balance == 0)) [
    | inl z ↦
        let gone : balance ≡ 0 = (==_iff balance 0).0 z in
        rw gone (delete_located-eq-ok l store store' kind at (rw z at h))
    | inr nz ↦
        let coded = encode xxh3_64_with_seed codec addr balance in
        let (encoded, mid, enc, rest) =
          and_then-eq-ok (map_encode_error coded, store)
            (λ encoded. write_located xxh3_64_with_seed cuckoo codec addr encoded l) kind store'
            (rw nz at h) in
        let same : mid ≡ store = sym (ap (λ p. p.1) enc) in
        write_located-eq-ok l balance encoded store store' kind (λ q. cc ((==_iff balance 0).1 q))
          at (map_encode_error-eq-ok coded encoded (ap (λ p. p.0) enc)) (rw same at rest)
  ]

  -- A change that succeeds was verified first. A delete and an update go to the store only where the scan
  -- found the key's own entry, an insert only where it found none; a zero balance deletes or does nothing,
  -- and another balance is written as the codec encodes it. A zero balance for an absent key leaves the
  -- store as it was.
  pub apply_change-IsVerified :
      (balance : Balance) (store store' : S) (kind : ChangeKind)
      → apply_change xxh3_64_with_seed cuckoo codec (addr, balance) store ≡ (ok kind, store')
      → IsVerified balance store kind store'
  unfolding apply_change
  apply_change-IsVerified balance store store' kind h =
      let scan = locate xxh3_64_with_seed codec addr (cuckoo.slots store) in
      let (l, mid, found, rest) =
        and_then-eq-ok (lift scan, store) (dispatch xxh3_64_with_seed cuckoo codec (addr, balance))
          kind store' h in
      let at : scan ≡ ok l = lift-eq-ok scan l (ap (λ p. p.0) found) in
      let same : mid ≡ store = sym (ap (λ p. p.1) found) in
      dispatched balance l store store' kind at (rw same at rest)
