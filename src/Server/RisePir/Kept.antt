-- ===== src/Server/RisePir/Kept.antt =====
-- What every write of the store keeps, the changes and the credits of a block keep.
use private_eth_getbalance_w.Prelude.{
  ℕ, List, [], ◌∷◌, Outcome, ok, err, panic, Bool-cases, inl, inr, ◌==◌,
}
use private_eth_getbalance_w.Proto.Delta.{AddressHash, Balance}
use private_eth_getbalance_w.Proto.Value.{ValueCodec, encode}
use private_eth_getbalance_w.Server.Verified.{
  Located, own, absent, shadowed, duplicate_tag, corrupt, lift, locate,
}
use private_eth_getbalance_w.Server.RisePir.{
  CuckooError, ServerError, BlockApplyReport, Cuckoo, Action, and_then, deleted, updated, inserted,
  map_encode_error, count, delete_located, write_located, dispatch, apply_change, apply_changes,
  credited, apply_credits,
}

module _ {S : Type 0} (cuckoo : Cuckoo S) (P : S → Type 0) where
  -- The store's writes keep what is said of the store.
  pub record IsKept : Type 0 where
    pub insert :
        (addr : AddressHash) (value : List ℕ) (s : S) → P s → P (cuckoo.insert addr value s).1
    pub update :
        (addr : AddressHash) (value : List ℕ) (s : S) → P s → P (cuckoo.update addr value s).1
    pub delete : (addr : AddressHash) (s : S) → P s → P (cuckoo.delete addr s).1

module _ {S : Type 0} (P : S → Type 0) where
  kept-and_then :
      {A B : Type 0} (run : Outcome ServerError A × S) (next : A → Action S B)
      → P run.1
      → ((a : A) (store : S) → P store → P (next a store).1)
      → P (and_then run next).1
  kept-and_then (ok a, store) next h k = k a store h
  kept-and_then (err e, store) next h k = h
  kept-and_then (panic, store) next h k = h

  kept-deleted : (run : Outcome CuckooError (Unit {0}) × S) → P run.1 → P (deleted run).1
  kept-deleted (ok done, s) h = h
  kept-deleted (err e, s) h = h
  kept-deleted (panic, s) h = h

  kept-updated : (run : Outcome CuckooError (Unit {0}) × S) → P run.1 → P (updated run).1
  kept-updated (ok done, s) h = h
  kept-updated (err e, s) h = h
  kept-updated (panic, s) h = h

  kept-inserted : (run : Outcome CuckooError (Unit {0}) × S) → P run.1 → P (inserted run).1
  kept-inserted (ok done, s) h = h
  kept-inserted (err CuckooError.table_full, s) h = h
  kept-inserted (err CuckooError.not_found, s) h = h
  kept-inserted (err (CuckooError.invalid_params m), s) h = h
  kept-inserted (panic, s) h = h

module _ (xxh3_64_with_seed : AddressHash → ℕ → ℕ) {S : Type 0} (cuckoo : Cuckoo S)
    (codec : ValueCodec) (P : S → Type 0) (law : IsKept cuckoo P) where
  kept-delete_located :
      (addr : AddressHash) (l : Located) (s : S)
      → P s
      → P (delete_located xxh3_64_with_seed cuckoo codec addr l s).1
  unfolding delete_located
  kept-delete_located addr (own b) s h = kept-deleted P (cuckoo.delete addr s) (law.delete addr s h)
  kept-delete_located addr (absent n) s h = h
  kept-delete_located addr shadowed s h = h
  kept-delete_located addr duplicate_tag s h = h
  kept-delete_located addr corrupt s h = h

  kept-write_located :
      (addr : AddressHash) (value : List ℕ) (l : Located) (s : S)
      → P s
      → P (write_located xxh3_64_with_seed cuckoo codec addr value l s).1
  unfolding write_located
  kept-write_located addr value (own b) s h =
      kept-updated P (cuckoo.update addr value s) (law.update addr value s h)
  kept-write_located addr value (absent n) s h =
      kept-inserted P (cuckoo.insert addr value s) (law.insert addr value s h)
  kept-write_located addr value shadowed s h = h
  kept-write_located addr value duplicate_tag s h = h
  kept-write_located addr value corrupt s h = h

  kept-dispatch :
      (change : AddressHash × Balance) (l : Located) (s : S)
      → P s
      → P (dispatch xxh3_64_with_seed cuckoo codec change l s).1
  unfolding dispatch
  kept-dispatch (addr, balance) l s h = elim (Bool-cases (balance == 0)) [
    | inl z ↦ rw z (kept-delete_located addr l s h)
    | inr nz ↦ rw nz (
        kept-and_then P (map_encode_error (encode xxh3_64_with_seed codec addr balance), s)
          (λ encoded. write_located xxh3_64_with_seed cuckoo codec addr encoded l) h
          (λ encoded. kept-write_located addr encoded l))
  ]

  kept-apply_change :
      (change : AddressHash × Balance) (s : S)
      → P s
      → P (apply_change xxh3_64_with_seed cuckoo codec change s).1
  unfolding apply_change
  kept-apply_change (addr, balance) s h =
      kept-and_then P (lift (locate xxh3_64_with_seed codec addr (cuckoo.slots s)), s)
        (dispatch xxh3_64_with_seed cuckoo codec (addr, balance)) h (kept-dispatch (addr, balance))

  kept-apply_changes :
      (changes : List (AddressHash × Balance)) (r : BlockApplyReport) (s : S)
      → P s
      → P (apply_changes xxh3_64_with_seed cuckoo codec changes r s).1
  unfolding apply_changes
  kept-apply_changes [] r s h = h
  kept-apply_changes (change ∷ changes) r s h =
      kept-and_then P (apply_change xxh3_64_with_seed cuckoo codec change s)
        (λ kind. apply_changes xxh3_64_with_seed cuckoo codec changes (count kind r))
        (kept-apply_change change s h) (λ kind. kept-apply_changes changes (count kind r))

  kept-apply_credits :
      (credits : List (AddressHash × Balance)) (r : BlockApplyReport) (s : S)
      → P s
      → P (apply_credits xxh3_64_with_seed cuckoo codec credits r s).1
  unfolding apply_credits
  kept-apply_credits [] r s h = h
  kept-apply_credits (credit ∷ credits) r s h =
      kept-and_then P (credited xxh3_64_with_seed cuckoo codec credit s, s)
        (λ balance store.
          and_then (apply_change xxh3_64_with_seed cuckoo codec (credit.0, balance) store)
            (λ kind. apply_credits xxh3_64_with_seed cuckoo codec credits (count kind r)))
        h
        (λ balance store k.
          kept-and_then P (apply_change xxh3_64_with_seed cuckoo codec (credit.0, balance) store)
            (λ kind. apply_credits xxh3_64_with_seed cuckoo codec credits (count kind r))
            (kept-apply_change (credit.0, balance) store k)
            (λ kind. kept-apply_credits credits (count kind r)))

  pub kept-apply_updates :
      (changes credits : List (AddressHash × Balance)) (r : BlockApplyReport) (s : S)
      → P s
      → P
          (and_then
            (apply_changes xxh3_64_with_seed cuckoo codec changes r s)
            (apply_credits xxh3_64_with_seed cuckoo codec credits)).1
  kept-apply_updates changes credits r s h =
      kept-and_then P (apply_changes xxh3_64_with_seed cuckoo codec changes r s)
        (apply_credits xxh3_64_with_seed cuckoo codec credits) (kept-apply_changes changes r s h)
        (kept-apply_credits credits)
