-- ===== src/Sync/Tests/Lookup.antt =====
-- A lookup by the client of the tests, and the theorems on it at concrete inputs.
use private_eth_getbalance_w.Prelude.{
  ℕ, suc, zero, ◌^◌, ◌≡◌, refl, List, [], ◌∷◌, ok, length, get_elem?, some, map, ◌==◌, arith,
}
use private_eth_getbalance_w.Prelude.Int.{ℤ, pos, negsuc, ◌+ℤ◌}
use private_eth_getbalance_w.Proto.Codec.{to_le_bytes}
use private_eth_getbalance_w.Proto.Value.{
  decode, extract_key_tag, key_tag, judge, check_widths, checksum, fnv1a64, slice_to, read_bits,
  read_bits_loop, read_bit,
}
use private_eth_getbalance_w.Server.Verified.{
  locate, scan_buckets, scan_bucket, scan_slot, tagged_slot,
}
use private_eth_getbalance_w.Client.Pending.{PendingMap, row_range}
use private_eth_getbalance_w.Client.Query.{
  ClientBackend, QueryCtx, RisePirClient, bucket_cells, correct_cells,
}
use private_eth_getbalance_w.Prelude.{take, drop, Bool-cases, inl, inr}
use private_eth_getbalance_w.Proto.Value.{found}
use private_eth_getbalance_w.Server.Verified.{own}
use private_eth_getbalance_w.Server.Verified.Found.{probes, slots_from}
use private_eth_getbalance_w.Client.Query.{check_rows, finish}
use private_eth_getbalance_w.Client.Query.Finish.{IsContext}
use private_eth_getbalance_w.Sync.Slots.{IsStored}
use private_eth_getbalance_w.Sync.Gather.{Unpacks, Agrees}
use private_eth_getbalance_w.Sync.Lookup.{IsProbe, synced_lookup}
use private_eth_getbalance_w.Sync.Current.{HoldsCells, IsRewound, synced_cells}
use private_eth_getbalance_w.Sync.Toy.{
  toy_params, Table, table_cells, table, IsOn, table-LogsWrites, toy_fp,
}
use private_eth_getbalance_w.Sync.Tests.{
  toy_hash, narrow, start, fifth_delta, stored, after, start-IsFresh, applied, followed, follow,
}

abbrev minus : ℤ → ℤ
minus (pos zero) = pos 0
minus (pos (suc n)) = negsuc n
minus (negsuc n) = pos (suc n)

abbrev split_slot : List ℕ → ℕ × List ℕ
split_slot [] = (0, [])
split_slot (fp ∷ value_bytes) = (fp, value_bytes)

-- A response is the cells of a row; the rewind takes the row's edits away.
abbrev plain : ClientBackend
plain = record {
  ServerParams = ℕ;
  Hint = ℕ;
  ClientState = ℕ;
  Query = ℕ;
  Response = List ℕ;
  client_setup = λ p h. p;
  client_patch_state = λ state rows. state;
  client_query = λ state row. (row, state);
  rewind_response = λ state query response m.
      correct_cells (2 ^ 8) 0 query (map (λ e. (e.0, minus e.1)) (row_range query m)) response;
  client_decode = λ state response. response;
}

abbrev client : RisePirClient plain
client = record {
  params = record {
    arity = 2;
    segment_size = 1;
    bucket_size = 1;
    cells_per_slot = 4;
    value_size_in_bytes = 3;
    plaintext_bits = 8;
    candidate_buckets = λ key. (toy_fp key, 0 ∷ 1 ∷ []);
    unpack_slot_cells = split_slot;
  };
  states = 4 ∷ 4 ∷ [];
  pinned_block = 4;
  delta = followed;
  value_codec = narrow;
}

abbrev ctx : QueryCtx plain
ctx = record { queries = 0 ∷ 0 ∷ []; rows = 0 ∷ 0 ∷ [] }

abbrev row_edits : PendingMap
row_edits = ((0, 0), pos 8) ∷ ((0, 1), pos 0x9e) ∷ ((0, 2), pos 0xa5) ∷ ((0, 3), pos 3) ∷ []

abbrev blank : List ℕ
blank = 0 ∷ 0 ∷ 0 ∷ 0 ∷ []

abbrev responses : List (List ℕ)
responses = stored ∷ blank ∷ []

client-IsRewound : IsRewound plain client ctx responses 0 0 blank
unfolding correct_cells row_range ◌+ℤ◌
client-IsRewound = record {
  state = 4;
  query = 0;
  response = stored;
  rewound = blank;
  has_state = refl;
  has_query = refl;
  has_response = refl;
  has_row = refl;
  rewinds = λ m at. let same : m ≡ row_edits = cc in rw same refl;
  decodes = refl;
}

start-HoldsCells : HoldsCells (table_cells start.store) 0 blank
start-HoldsCells zero = refl
start-HoldsCells (suc zero) = refl
start-HoldsCells (suc (suc zero)) = refl
start-HoldsCells (suc (suc (suc zero))) = refl
start-HoldsCells (suc (suc (suc (suc o)))) = ground arith

after-HoldsCells : HoldsCells (table_cells after.store) 0 stored
after-HoldsCells zero = refl
after-HoldsCells (suc zero) = refl
after-HoldsCells (suc (suc zero)) = refl
after-HoldsCells (suc (suc (suc zero))) = refl
after-HoldsCells (suc (suc (suc (suc o)))) = ground arith

synced_cells_example : bucket_cells plain client ctx responses 0 ≡ ok stored
synced_cells_example =
    synced_cells toy_hash table toy_params table_cells IsOn table-LogsWrites plain start after
      (fifth_delta ∷ []) 4 client ctx responses 0 blank stored refl start-IsFresh applied follow
      (omega arith) client-IsRewound start-HoldsCells after-HoldsCells refl (omega arith)
      (omega arith, (omega arith, (omega arith, (omega arith, tt))))

tag_7 : key_tag toy_hash narrow 7 ≡ 0x1e
unfolding key_tag
tag_7 = refl

locate_7 : locate toy_hash narrow 7 (table.slots after.store) ≡ ok (own 300)
unfolding locate scan_buckets scan_bucket scan_slot tagged_slot extract_key_tag key_tag decode judge
    check_widths checksum fnv1a64 slice_to read_bits read_bits_loop read_bit to_le_bytes
locate_7 = refl

slots_of_two : length (probes (table.slots after.store) (0 ∷ 1 ∷ [])) ≡ 2
unfolding probes slots_from
slots_of_two = refl

after-IsStored : (bucket slot : ℕ) → IsStored narrow ((table.slots after.store).slot_at bucket slot)
after-IsStored bucket slot = elim (Bool-cases (bucket == 0)) [
  | inl first ↦
      rw first
        (omega arith, record { all = (omega arith, (omega arith, (omega arith, tt))); size = refl })
  | inr other ↦
      rw other
        (omega arith, record { all = (omega arith, (omega arith, (omega arith, tt))); size = refl })
]

client-Agrees : Agrees toy_hash plain client 7 (table.slots after.store)
client-Agrees = record {
  arity = refl;
  bucket_size = refl;
  candidates = refl;
  count = refl;
  fingerprint = omega arith;
  tag = omega (arith, tag_7);
  representable = record { tag = omega arith; balance = omega arith; sum = omega arith };
  value_size = refl;
  slots = after-IsStored;
  few = omega (arith, slots_of_two);
}

check_7 : check_rows 1 (0 ∷ 0 ∷ []) (0 ∷ 1 ∷ []) 2 0 ≡ ok tt
unfolding check_rows
check_7 = refl

context_7 : IsContext toy_hash plain client 7 ctx responses
context_7 = record { responses = refl; queries = refl; count = refl; rows = check_7 }

blank-IsRewound : IsRewound plain client ctx responses 1 0 blank
unfolding correct_cells row_range ◌+ℤ◌
blank-IsRewound = record {
  state = 4;
  query = 0;
  response = blank;
  rewound = blank;
  has_state = refl;
  has_query = refl;
  has_response = refl;
  has_row = refl;
  rewinds = λ m at. let same : m ≡ [] = cc in rw same refl;
  decodes = refl;
}

blank-HoldsCells : (s : Table) → ((o : ℕ) → s.0 1 o ≡ 0) → HoldsCells (table_cells s) 1 blank
blank-HoldsCells s h zero = rw (h 0) refl
blank-HoldsCells s h (suc zero) = rw (h 1) refl
blank-HoldsCells s h (suc (suc zero)) = rw (h 2) refl
blank-HoldsCells s h (suc (suc (suc zero))) = rw (h 3) refl
blank-HoldsCells s h (suc (suc (suc (suc o)))) = ground arith

one_slot :
    (bucket : ℕ) (xs : List ℕ)
    → length xs ≡ 4
    → split_slot (take 4 (drop 0 xs)) ≡ (table.slots after.store).slot_at bucket 0
    → Unpacks client.params (table.slots after.store) bucket xs
one_slot bucket xs n e = record {
  room = λ s h. let first : s ≡ 0 = omega (arith, h) in omega (arith, n, first);
  slot = λ s h. let first : s ≡ 0 = omega (arith, h) in rw first e;
}

first-IsProbe :
    IsProbe toy_hash table toy_params table_cells IsOn table-LogsWrites plain start after client ctx
      responses 0 0
first-IsProbe = record {
  segment = refl;
  pinned = blank;
  now = stored;
  rewound = client-IsRewound;
  before = start-HoldsCells;
  after = after-HoldsCells;
  same_length = refl;
  width = omega arith;
  small = (omega arith, (omega arith, (omega arith, (omega arith, tt))));
  unpacks = one_slot 0 stored refl refl;
}

second-IsProbe :
    IsProbe toy_hash table toy_params table_cells IsOn table-LogsWrites plain start after client ctx
      responses 1 1
second-IsProbe = record {
  segment = refl;
  pinned = blank;
  now = blank;
  rewound = blank-IsRewound;
  before = blank-HoldsCells start.store (λ o. refl);
  after = blank-HoldsCells after.store (λ o. refl);
  same_length = refl;
  width = omega arith;
  small = (omega arith, (omega arith, (omega arith, (omega arith, tt))));
  unpacks = one_slot 1 blank refl refl;
}

each-IsProbe :
    (j bucket : ℕ)
    → get_elem? (0 ∷ 1 ∷ []) j ≡ some bucket
    → IsProbe toy_hash table toy_params table_cells IsOn table-LogsWrites plain start after client
        ctx responses j bucket
each-IsProbe zero bucket e = let same : bucket ≡ 0 = cc in rw same first-IsProbe
each-IsProbe (suc zero) bucket e = let same : bucket ≡ 1 = cc in rw same second-IsProbe
each-IsProbe (suc (suc j)) bucket e = cc

synced_lookup_example : finish toy_hash plain client 7 ctx responses 5 ≡ ok (found 300)
synced_lookup_example =
    synced_lookup toy_hash table toy_params table_cells IsOn table-LogsWrites plain start after
      (fifth_delta ∷ []) 4 client 7 ctx responses (own 300) refl start-IsFresh applied follow refl
      client-Agrees context_7 each-IsProbe locate_7
