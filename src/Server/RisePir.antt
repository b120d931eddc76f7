-- ===== src/Server/RisePir.antt =====
-- crates/risepir-server/src/server.rs and error.rs: the server that turns a block's balance changes
-- into one delta. The cuckoo store and the PIR backend are third-party code: a record of operations
-- each. An operation gives its outcome and the state after it, which an error keeps.
pub mod Apply
pub mod Hints
pub mod Dispatch
pub mod Kept
pub mod Geometry
pub mod Setup
mod Tests
use private_eth_getbalance_w.Prelude.{
  ℕ, ◌+◌, ◌*◌, ◌%◌, ◌^◌, List, [], ◌∷◌, Bool, true, false, Option, none, some, Outcome, ok, err,
  panic, ◌>>=◌, length, ltb, leb, ◌==◌, if◌then◌else◌, take, drop,
}
use private_eth_getbalance_w.Proto.Delta.{AddressHash, Balance, BlockUpdate, SegmentRowDeltas}
use private_eth_getbalance_w.Proto.Value.{ValueCodec, ValueError, balance_overflow, encode}
use private_eth_getbalance_w.Server.Verified.{
  Store, Located, own, absent, shadowed, duplicate_tag, corrupt, lift, locate, get,
}
use private_eth_getbalance_w.Server.Fold.{SlotMutation, CuckooParams}

-- The store's errors; a message is the list of its characters.
pub data CuckooError : Type 0 where
  table_full : CuckooError
  not_found : CuckooError
  invalid_params : List ℕ → CuckooError

-- The text of `ServerError::Store`, by what it is formatted from.
pub data StoreMessage : Type 0 where
  delete_failed : CuckooError → StoreMessage
  update_failed : CuckooError → StoreMessage
  insert_not_found : StoreMessage
  message : List ℕ → StoreMessage

pub data ServerError : Type 0 where
  encode_error : ValueError → ServerError
  table_full : ServerError
  non_monotonic_block : ℕ → ℕ → ServerError
  malformed_query : ℕ → ℕ → ServerError
  fingerprint_ambiguity : Bool → ServerError
  corrupt_stored_value : ServerError
  store_error : StoreMessage → ServerError

pub data ChangeKind : Type 0 where
  kind_insert kind_update kind_delete noop_delete : ChangeKind

-- The counts of a block's report. The times that it measures are left out.
pub record BlockApplyReport : Type 0 where
  pub inserts : ℕ
  pub updates : ℕ
  pub deletes : ℕ
  pub noop_deletes : ℕ
  pub changes : ℕ
  pub credits : ℕ
  pub touched_cells : ℕ

-- What is used of a cuckoo store of type S.
pub record Cuckoo (S : Type 0) : Type 0 where
  pub params : S → CuckooParams
  pub slots : S → Store
  pub value_size_in_bytes : S → ℕ
  pub as_cells : S → List ℕ
  pub insert : AddressHash → List ℕ → S → Outcome CuckooError (Unit {0}) × S
  pub update : AddressHash → List ℕ → S → Outcome CuckooError (Unit {0}) × S
  pub delete : AddressHash → S → Outcome CuckooError (Unit {0}) × S
  pub enable_mutation_log : S → S
  pub drain_mutations : S → List SlotMutation × S
  pub pack_slot_cells : CuckooParams → ℕ → List ℕ → List ℕ

-- What is used of a PIR backend: its types, and its operations on the cells of a segment. A setup samples a
-- fresh seed: what it draws is its first argument.
pub record Backend : Type 1 where
  pub Seed : Type 0
  pub Config : Type 0
  pub ServerParams : Type 0
  pub HintMaterial : Type 0
  pub Hint : Type 0
  pub Query : Type 0
  pub Response : Type 0
  pub server_setup : Seed → Config → List ℕ → ℕ → ℕ → ℕ → ServerParams × HintMaterial × Hint
  pub expand_hint_material : ServerParams → HintMaterial
  pub server_patch_hint : ServerParams → HintMaterial → Hint → SegmentRowDeltas → Hint
  pub server_answer : ServerParams → List ℕ → ℕ → ℕ → Query → Response

pub record RisePirServer (S : Type 0) (b : Backend) : Type 0 where
  pub store : S
  pub params : CuckooParams
  pub backend_config : b.Config
  pub backend_params : List b.ServerParams
  pub material : List b.HintMaterial
  pub hints : List b.Hint
  pub block : ℕ
  pub value_codec : ValueCodec

pub record SetupBundle (b : Backend) : Type 0 where
  pub params : CuckooParams
  pub backend_params : List b.ServerParams
  pub hints : List b.Hint
  pub block : ℕ

-- An operation on a state: what it returns, and the state after it. The state after a panic is of no
-- consequence.
abbrev pub Action : Type 0 → Type 0 → Type 0
Action S A = S → Outcome ServerError A × S

abbrev pub and_then :
    {S A B : Type 0} → Outcome ServerError A × S → (A → Action S B) → Outcome ServerError B × S
and_then (ok a, store) next = next a store
and_then (err e, store) next = (err e, store)
and_then (panic, store) next = (panic, store)

-- The store's answers to a verified write.
abbrev pub deleted :
    {S : Type 0} → Outcome CuckooError (Unit {0}) × S → Outcome ServerError ChangeKind × S
deleted (ok done, store) = (ok kind_delete, store)
deleted (err e, store) = (err (store_error (delete_failed e)), store)
deleted (panic, store) = (panic, store)

abbrev pub updated :
    {S : Type 0} → Outcome CuckooError (Unit {0}) × S → Outcome ServerError ChangeKind × S
updated (ok done, store) = (ok kind_update, store)
updated (err e, store) = (err (store_error (update_failed e)), store)
updated (panic, store) = (panic, store)

abbrev pub inserted :
    {S : Type 0} → Outcome CuckooError (Unit {0}) × S → Outcome ServerError ChangeKind × S
inserted (ok done, store) = (ok kind_insert, store)
inserted (err table_full, store) = (err table_full, store)
inserted (err (invalid_params text), store) = (err (store_error (message text)), store)
inserted (err not_found, store) = (err (store_error insert_not_found), store)
inserted (panic, store) = (panic, store)

-- `map_err(ServerError::Encode)`
abbrev pub map_encode_error : {A : Type 0} → Outcome ValueError A → Outcome ServerError A
map_encode_error (ok a) = ok a
map_encode_error (err e) = err (encode_error e)
map_encode_error panic = panic

-- What `get` said, as the server's error.
abbrev pub map_located : {A : Type 0} → Outcome Located A → Outcome ServerError A
map_located (ok a) = ok a
map_located (err corrupt) = err corrupt_stored_value
map_located (err (own b)) = err (fingerprint_ambiguity false)
map_located (err (absent n)) = err (fingerprint_ambiguity false)
map_located (err shadowed) = err (fingerprint_ambiguity false)
map_located (err duplicate_tag) = err (fingerprint_ambiguity false)
map_located panic = panic

-- `prior.checked_add(*amount)` on u128s, of a missing prior as 0.
abbrev pub prior_or_zero : Option Balance → Balance
prior_or_zero none = 0
prior_or_zero (some b) = b

abbrev pub checked_credit : Balance → Balance → Outcome ServerError Balance
checked_credit prior amount =
    if ltb (prior + amount) (2 ^ 128)
    then ok (prior + amount)
    else err (encode_error balance_overflow)

-- `xs[start..start + n]`
abbrev pub slice : {E : Type 0} → List ℕ → ℕ → ℕ → Outcome E (List ℕ)
slice xs start n = if leb (start + n) (length xs) then ok (take n (drop start xs)) else panic

-- `bucket_size * cells_per_slot`, a u32.
abbrev pub row_width : CuckooParams → ℕ
row_width params = params.bucket_size * params.cells_per_slot % 2 ^ 32

-- `segment_size as usize * row_width as usize`
abbrev pub seg_cells : CuckooParams → ℕ
seg_cells params = params.segment_size * row_width params

abbrev pub count : ChangeKind → BlockApplyReport → BlockApplyReport
count kind_insert r = record r { inserts = (r.inserts + 1) % 2 ^ 64 }
count kind_update r = record r { updates = (r.updates + 1) % 2 ^ 64 }
count kind_delete r = record r { deletes = (r.deletes + 1) % 2 ^ 64 }
count noop_delete r = record r { noop_deletes = (r.noop_deletes + 1) % 2 ^ 64 }

module _ (xxh3_64_with_seed : AddressHash → ℕ → ℕ) {S : Type 0} (cuckoo : Cuckoo S)
    (codec : ValueCodec) where
  -- A change to a zero balance, which deletes.
  unfoldable pub delete_located : AddressHash → Located → Action S ChangeKind
  delete_located addr (own b) store = deleted (cuckoo.delete addr store)
  delete_located addr (absent n) store = (ok noop_delete, store)
  delete_located addr shadowed store = (err (fingerprint_ambiguity true), store)
  delete_located addr duplicate_tag store = (err (fingerprint_ambiguity false), store)
  delete_located addr corrupt store = (err corrupt_stored_value, store)

  unfoldable pub write_located : AddressHash → List ℕ → Located → Action S ChangeKind
  write_located addr encoded (own b) store = updated (cuckoo.update addr encoded store)
  write_located addr encoded (absent n) store = inserted (cuckoo.insert addr encoded store)
  write_located addr encoded shadowed store = (err (fingerprint_ambiguity true), store)
  write_located addr encoded duplicate_tag store = (err (fingerprint_ambiguity false), store)
  write_located addr encoded corrupt store = (err corrupt_stored_value, store)

  -- What is done once the entry is located.
  unfoldable pub dispatch : AddressHash × Balance → Located → Action S ChangeKind
  dispatch (addr, balance) located store =
      if balance == 0
      then delete_located addr located store
      else and_then (map_encode_error (encode xxh3_64_with_seed codec addr balance), store)
          (λ encoded. write_located addr encoded located)

  unfoldable pub apply_change : AddressHash × Balance → Action S ChangeKind
  apply_change (addr, balance) store =
      and_then (lift (locate xxh3_64_with_seed codec addr (cuckoo.slots store)), store)
        (dispatch (addr, balance))

  unfoldable pub apply_changes :
      List (AddressHash × Balance) → BlockApplyReport → Action S BlockApplyReport
  apply_changes [] r store = (ok r, store)
  apply_changes (change ∷ changes) r store =
      and_then (apply_change change store)
        (λ kind store. apply_changes changes (count kind r) store)

  -- The balance that a credit leaves.
  unfoldable pub credited : AddressHash × Balance → S → Outcome ServerError Balance
  credited (addr, amount) store = do
    prior ← map_located (get xxh3_64_with_seed codec addr (cuckoo.slots store))
    checked_credit (prior_or_zero prior) amount

  unfoldable pub apply_credits :
      List (AddressHash × Balance) → BlockApplyReport → Action S BlockApplyReport
  apply_credits [] r store = (ok r, store)
  apply_credits (credit ∷ credits) r store =
      and_then (credited credit store, store)
        (λ balance store.
          and_then (apply_change (credit.0, balance) store)
            (λ kind store. apply_credits credits (count kind r) store))

  -- `balance_of`
  pub balance_of : AddressHash → S → Outcome ServerError (Option Balance)
  balance_of addr store = map_located (get xxh3_64_with_seed codec addr (cuckoo.slots store))
