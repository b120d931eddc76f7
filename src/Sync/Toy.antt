-- ===== src/Sync/Toy.antt =====
-- A small store that keeps its cells in a function and logs every write, and its laws.
use private_eth_getbalance_w.Prelude.{
  ℕ, zero, suc, ◌+◌, ◌%◌, ◌^◌, ◌<◌, ◌≡◌, refl, sym, subst, arith, List, [], ◌∷◌, ◌++◌, some, ok,
  ltb, get_elem?, get_or, if◌then◌else◌, ◌==◌, ==_iff, true,
}
use private_eth_getbalance_w.Proto.Delta.{AddressHash}
use private_eth_getbalance_w.Server.Fold.{SlotMutation, CuckooParams}
use private_eth_getbalance_w.Server.Fold.Replay.{
  Database, IsWords, IsChange, Replay, replayed, change,
}
use private_eth_getbalance_w.Prelude.{All, ◌/◌}
use private_eth_getbalance_w.Server.Fold.Total.{IsInside}
use private_eth_getbalance_w.Server.RisePir.{Cuckoo}
use private_eth_getbalance_w.Server.RisePir.Kept.{IsKept}
use private_eth_getbalance_w.Server.RisePir.Apply.Difference.{Logged, LogsWrites}

-- Buckets of one slot of four cells.
abbrev pub toy_params : CuckooParams
toy_params = record {
  arity = 2;
  segment_size = 1;
  bucket_size = 1;
  cells_per_slot = 4;
  plaintext_bits = 8;
}

abbrev pub Table : Type 0
Table = Database × List SlotMutation

abbrev pub table_cells : Table → Database
table_cells s b o = if ltb o 4 then s.0 b o % 2 ^ 32 else 0

abbrev pack : ℕ → List ℕ → List ℕ
pack fp value = fp ∷ value

abbrev write : Database → ℕ → List ℕ → Database
write db bucket xs b o = if b == bucket then get_or xs o 0 else db b o

abbrev word : List ℕ → ℕ → ℕ
word xs c = get_or xs c 0 % 2 ^ 32

abbrev log_entry : ℕ → List ℕ → Table → SlotMutation
log_entry bucket xs s = record {
  bucket = bucket;
  slot = 0;
  old_fingerprint = table_cells s bucket 0;
  new_fingerprint = word xs 0;
  old_value_cells = table_cells s bucket 1 ∷ table_cells s bucket 2 ∷ table_cells s bucket 3 ∷ [];
  new_value_cells = word xs 1 ∷ word xs 2 ∷ word xs 3 ∷ [];
}

abbrev put : ℕ → List ℕ → Table → Table
put bucket xs s = (write s.0 bucket xs, s.1 ++ (log_entry bucket xs s ∷ []))

-- The first of the two buckets with the fingerprint.
abbrev place : ℕ → Table → ℕ
place fp s = if table_cells s 0 0 == fp then 0 else 1

abbrev pub toy_fp : AddressHash → ℕ
toy_fp key = key % 10 + 1

abbrev pub table : Cuckoo Table
table = record {
  params = λ s. toy_params;
  slots = λ s. record {
    arity = 2;
    bucket_size = 1;
    candidate_buckets = λ key. (toy_fp key, 0 ∷ 1 ∷ []);
    slot_at = λ bucket slot. (
      table_cells s bucket 0,
      table_cells s bucket 1 ∷ table_cells s bucket 2 ∷ table_cells s bucket 3 ∷ [],
    );
  };
  value_size_in_bytes = λ s. 3;
  as_cells = λ s. [];
  insert = λ key value s. (ok tt, put (place 0 s) (toy_fp key ∷ value) s);
  update = λ key value s. (ok tt, put (place (toy_fp key) s) (toy_fp key ∷ value) s);
  delete = λ key s. (ok tt, put (place (toy_fp key) s) [] s);
  enable_mutation_log = λ s. s;
  drain_mutations = λ s. (s.1, (s.0, []));
  pack_slot_cells = λ params fp value. fp ∷ value;
}

table-IsWords : (s : Table) → IsWords (table_cells s)
table-IsWords s b o = ground arith

old_word :
    (bucket : ℕ) (xs : List ℕ) (s : Table) (c : ℕ)
    → c < 4
    → get_elem?
        (pack (log_entry bucket xs s).old_fingerprint (log_entry bucket xs s).old_value_cells)
        c
      ≡ some (table_cells s bucket c)
old_word bucket xs s zero h = refl
old_word bucket xs s (suc zero) h = refl
old_word bucket xs s (suc (suc zero)) h = refl
old_word bucket xs s (suc (suc (suc zero))) h = refl
old_word bucket xs s (suc (suc (suc (suc c)))) h = absurd (omega (arith, h))

new_word :
    (bucket : ℕ) (xs : List ℕ) (s : Table) (c : ℕ)
    → c < 4
    → get_elem?
        (pack (log_entry bucket xs s).new_fingerprint (log_entry bucket xs s).new_value_cells)
        c
      ≡ some (table_cells (put bucket xs s) bucket c)
new_word bucket xs s c h =
    let own : (bucket == bucket) ≡ true = (==_iff bucket bucket).1 refl in rw own (found c h)
  where
    found :
        (c : ℕ)
        → c < 4
        → get_elem? (word xs 0 ∷ word xs 1 ∷ word xs 2 ∷ word xs 3 ∷ []) c
          ≡ some (if ltb c 4 then get_or xs c 0 % 2 ^ 32 else 0)
    found zero h = refl
    found (suc zero) h = refl
    found (suc (suc zero)) h = refl
    found (suc (suc (suc zero))) h = refl
    found (suc (suc (suc (suc c)))) h = absurd (omega (arith, h))

zero_add : (c : ℕ) → 0 + c ≡ c
zero_add c = omega arith

put-IsChange :
    (bucket : ℕ) (xs : List ℕ) (s : Table)
    → IsChange pack toy_params
        (log_entry bucket xs s)
        (table_cells s)
        (table_cells (put bucket xs s))
put-IsChange bucket xs s = record {
  old_cells = λ c h. rw (zero_add c) (old_word bucket xs s c h);
  new_cells = λ c h. rw (zero_add c) (new_word bucket xs s c h);
  others = λ b o h. ground arith;
}

-- A log is followed by one more change.
Replay-snoc :
    (muts : List SlotMutation) (m : SlotMutation) (before mid after : Database)
    → Replay pack toy_params muts before mid
    → IsChange pack toy_params m mid after
    → IsWords after
    → Replay pack toy_params (muts ++ (m ∷ [])) before after
Replay-snoc [] m before mid after (replayed a c same) step w =
    let at : before ≡ mid = λ t. λ b o. sym (same b o) t in
    change m [] before after after (subst (λ db. IsChange pack toy_params m db after) (sym at) step)
      w (replayed after after (λ b o. refl))
Replay-snoc (n ∷ muts) m before mid after (change x y z next v first words rest) step w =
    change n (muts ++ (m ∷ [])) before next after first words
      (Replay-snoc muts m next mid after rest step w)

abbrev pub IsOn : Table → Type 0
IsOn s = Unit

put-Logged :
    (origin : Table) (bucket : ℕ) (xs : List ℕ) (s : Table)
    → Logged table toy_params table_cells IsOn origin s
    → Logged table toy_params table_cells IsOn origin (put bucket xs s)
put-Logged origin bucket xs s h = (
  tt,
  Replay-snoc s.1 (log_entry bucket xs s) (table_cells origin) (table_cells s)
      (table_cells (put bucket xs s)) h.1 (put-IsChange bucket xs s)
      (table-IsWords (put bucket xs s)),
)

pub table-LogsWrites : LogsWrites table toy_params table_cells IsOn
table-LogsWrites = record {
  words = table-IsWords;
  writes = λ origin. record {
    insert = λ key value s. put-Logged origin (place 0 s) (toy_fp key ∷ value) s;
    update = λ key value s. put-Logged origin (place (toy_fp key) s) (toy_fp key ∷ value) s;
    delete = λ key s. put-Logged origin (place (toy_fp key) s) [] s;
  };
  drain_logging = λ s h. tt;
  drain_cells = λ s b o. refl;
  drained = λ s. refl;
}

place_within : (fp : ℕ) (s : Table) → place fp s / 1 < 2
place_within fp s = ground arith

append-All :
    (P : SlotMutation → Type 0) (log : List SlotMutation) (m : SlotMutation)
    → All P log
    → P m
    → All P (log ++ (m ∷ []))
append-All P [] m h p = (p, tt)
append-All P (x ∷ log) m h p = (h.0, append-All P log m h.1 p)

entry-IsInside :
    (fp : ℕ) (xs : List ℕ) (s : Table) → IsInside pack toy_params (log_entry (place fp s) xs s)
entry-IsInside fp xs s = record {
  size = omega arith;
  segment = place_within fp s;
  offsets = omega arith;
  old_cells = omega arith;
  new_cells = omega arith;
}

-- Every write of the store is inside its geometry.
pub table-IsInside : IsKept table (λ s. All (IsInside pack toy_params) (table.drain_mutations s).0)
table-IsInside = record {
  insert = λ key value s h.
      append-All (IsInside pack toy_params) s.1 (log_entry (place 0 s) (toy_fp key ∷ value) s) h
        (entry-IsInside 0 (toy_fp key ∷ value) s);
  update = λ key value s h.
      append-All (IsInside pack toy_params) s.1
        (log_entry (place (toy_fp key) s) (toy_fp key ∷ value) s) h
        (entry-IsInside (toy_fp key) (toy_fp key ∷ value) s);
  delete = λ key s h.
      append-All (IsInside pack toy_params) s.1 (log_entry (place (toy_fp key) s) [] s) h
        (entry-IsInside (toy_fp key) [] s);
}
