-- ===== src/Server/Verified.antt =====
-- crates/risepir-server/src/verified.rs: `locate`, the scan of a key's candidate slots, and `get`, the
-- verified read. The cuckoo store and the hash of the addresses are third-party code and stand as parameters.
pub mod Found
pub mod Locate
pub mod Panics
pub mod Get
mod Tests
use private_eth_getbalance_w.Prelude.{
  ℕ, zero, suc, ◌+◌, ◌%◌, ◌^◌, List, [], ◌∷◌, Bool, true, false, ◌||◌, not, Option, none, some,
}
use private_eth_getbalance_w.Prelude.{
  Outcome, ok, err, panic, ◌>>=◌, ◌>>◌, take, ltb, ◌==◌, if◌then◌else◌,
}
use private_eth_getbalance_w.Proto.Delta.{AddressHash, Balance}
use private_eth_getbalance_w.Proto.Value.{
  ValueCodec, Lookup, found, not_found, decode_failed, key_tag, extract_key_tag, decode,
}

-- What is used of a store: `candidate_buckets` gives a key's fingerprint and buckets, and `slot_at`
-- the fingerprint and the value bytes that `unpack_slot_cells` reads in a slot of a bucket.
pub record Store : Type 0 where
  pub arity : ℕ
  pub bucket_size : ℕ
  pub candidate_buckets : AddressHash → ℕ × List ℕ
  pub slot_at : ℕ → ℕ → ℕ × List ℕ

pub data Located : Type 0 where
  own : Balance → Located
  absent : ℕ → Located
  shadowed duplicate_tag corrupt : Located

-- The variables of the scan.
pub record Scan : Type 0 where
  pub foreign_fp_matches : ℕ
  pub foreign_seen_before_ours : Bool
  pub ours : Option Lookup

-- A result that has no errors, where errors are possible.
abbrev pub lift {ℓ} : {E : Type 0} {A : Type ℓ} → Outcome ⊥ A → Outcome E A
lift (ok a) = ok a
lift (err e) = absurd e
lift panic = panic

-- An early return, which the scan passes on as an error, is a result of the function.
abbrev pub returned : {A : Type 0} → Outcome A A → Outcome ⊥ A
returned (ok a) = ok a
returned (err a) = ok a
returned panic = panic

-- The `match` after the loops.
abbrev pub conclude : ℕ → Bool → Option Lookup → Located
conclude foreign_fp_matches seen none = absent foreign_fp_matches
conclude foreign_fp_matches true (some l) = shadowed
conclude foreign_fp_matches false (some (found balance)) = own balance
conclude foreign_fp_matches false (some not_found) = corrupt
conclude foreign_fp_matches false (some decode_failed) = corrupt

-- What `get` returns at the key's slot, and after the loops, which an early return has left as an
-- error.
abbrev pub read_lookup : Lookup → Outcome Located Balance
read_lookup (found b) = ok b
read_lookup not_found = err corrupt
read_lookup decode_failed = err corrupt

abbrev pub reread_result :
    Outcome (Outcome Located Balance) (Unit {0}) → Outcome Located (Option Balance)
reread_result (ok done) = err corrupt
reread_result (err (ok b)) = ok (some b)
reread_result (err (err located)) = err located
reread_result (err panic) = panic
reread_result panic = panic

module _ (xxh3_64_with_seed : AddressHash → ℕ → ℕ) (c : ValueCodec) (key : AddressHash) where
  unfoldable pub tagged_slot : List ℕ → Scan → Option Lookup → Outcome Located Scan
  tagged_slot value_bytes s (some l) = err duplicate_tag
  tagged_slot value_bytes s none = do
    l ← lift (decode xxh3_64_with_seed c key value_bytes)
    ok (record {
      foreign_fp_matches = s.foreign_fp_matches;
      foreign_seen_before_ours = s.foreign_seen_before_ours || ltb 0 s.foreign_fp_matches;
      ours = some l;
    })

  -- One slot of the scan.
  unfoldable pub scan_slot : ℕ → ℕ × List ℕ → Scan → Outcome Located Scan
  scan_slot fp (slot_fp, value_bytes) s = if not (slot_fp == fp) then ok s else do
    stored ← lift (extract_key_tag {E = ⊥} c value_bytes)
    if stored == key_tag xxh3_64_with_seed c key
        then tagged_slot value_bytes s s.ours
        else ok (record s { foreign_fp_matches = (s.foreign_fp_matches + 1) % 2 ^ 32 })

  -- The slots of a bucket from `slot` on, `left` of them.
  unfoldable pub scan_bucket : Store → ℕ → ℕ → ℕ → ℕ → Scan → Outcome Located Scan
  scan_bucket store fp bucket zero slot s = ok s
  scan_bucket store fp bucket (suc left) slot s = do
    s ← scan_slot fp (store.slot_at bucket slot) s
    scan_bucket store fp bucket left (slot + 1) s

  unfoldable pub scan_buckets : Store → ℕ → List ℕ → Scan → Outcome Located Scan
  scan_buckets store fp [] s = ok s
  scan_buckets store fp (bucket ∷ buckets) s = do
    s ← scan_bucket store fp bucket store.bucket_size 0 s
    scan_buckets store fp buckets s

  unfoldable pub locate : Store → Outcome ⊥ Located
  locate store =
      let (fp, indices) = store.candidate_buckets key in
      returned (do
        s ←
            scan_buckets store fp (take store.arity indices)
              (record { foreign_fp_matches = 0; foreign_seen_before_ours = false; ours = none })
        ok (conclude s.foreign_fp_matches s.foreign_seen_before_ours s.ours))

  -- One slot of the second scan of `get`, and what is read of it where it is the key's.
  unfoldable pub reread_slot : ℕ → ℕ × List ℕ → Outcome (Outcome Located Balance) (Unit {0})
  reread_slot fp (slot_fp, value_bytes) = if not (slot_fp == fp) then ok tt else do
    stored ← lift (extract_key_tag {E = ⊥} c value_bytes)
    if not (stored == key_tag xxh3_64_with_seed c key)
        then ok tt
        else do l ← lift (decode xxh3_64_with_seed c key value_bytes); err (read_lookup l)

  unfoldable pub reread_bucket :
      Store → ℕ → ℕ → ℕ → ℕ → Outcome (Outcome Located Balance) (Unit {0})
  reread_bucket store fp bucket zero slot = ok tt
  reread_bucket store fp bucket (suc left) slot = do
    reread_slot fp (store.slot_at bucket slot)
    reread_bucket store fp bucket left (slot + 1)

  unfoldable pub reread_buckets : Store → ℕ → List ℕ → Outcome (Outcome Located Balance) (Unit {0})
  reread_buckets store fp [] = ok tt
  reread_buckets store fp (bucket ∷ buckets) = do
    reread_bucket store fp bucket store.bucket_size 0
    reread_buckets store fp buckets

  unfoldable pub reread : Store → Outcome Located (Option Balance)
  reread store =
      let (fp, indices) = store.candidate_buckets key in
      reread_result (reread_buckets store fp (take store.arity indices))

  unfoldable pub get_located : Store → Located → Outcome Located (Option Balance)
  get_located store (own b) = ok (some b)
  get_located store (absent n) = ok none
  get_located store shadowed = reread store
  get_located store duplicate_tag = err duplicate_tag
  get_located store corrupt = err corrupt

  -- `get`
  unfoldable pub get : Store → Outcome Located (Option Balance)
  get store = do located ← lift (locate store); get_located store located
