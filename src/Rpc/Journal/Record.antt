-- ===== src/Rpc/Journal/Record.antt =====
-- One record, written and read back.
use private_eth_getbalance_w.Prelude.{
  ℕ, ◌+◌, ◌-◌, ◌%◌, ◌^◌, ◌≤◌, ◌<◌, ◌≡◌, refl, ◌∙◌, ap, arith, List, [], ◌∷◌, ◌++◌, not, ◌||◌, true,
  false, none, some, ok, length, take, drop, leb, ltb, ◌==◌, ==_iff, length-append, if◌then◌else◌,
}
use private_eth_getbalance_w.Proto.Delta.{BlockDelta}
use private_eth_getbalance_w.Proto.Codec.{to_le_bytes, decode_block_delta}
use private_eth_getbalance_w.Proto.Codec.RoundTrip.{from_le_bytes-to_le_bytes, length-to_le_bytes}
use private_eth_getbalance_w.Rpc.Journal.{
  JournalReader, max_record_bytes, take_bytes, read_record, try_next, record_bytes, advance, next,
  eof,
}

take_append : (xs ys : List ℕ) → take (length xs) (xs ++ ys) ≡ xs
take_append [] ys = refl
take_append (x ∷ xs) ys = ap (λ l. x ∷ l) (take_append xs ys)

drop_append : (xs ys : List ℕ) → drop (length xs) (xs ++ ys) ≡ ys
drop_append [] ys = refl
drop_append (x ∷ xs) ys = drop_append xs ys

pub take_bytes-append :
    {E : Type 0} (e : E) (n : ℕ) (xs ys : List ℕ)
    → length xs ≡ n
    → take_bytes e n (xs ++ ys) ≡ ok (xs, ys)
unfolding take_bytes
take_bytes-append e n xs ys h =
    let enough : ltb (length (xs ++ ys)) (length xs) ≡ false =
      ground (arith, length-append xs ys) in
    rw (← h, enough, take_append xs ys, drop_append xs ys) refl

pub append_assoc : (xs ys zs : List ℕ) → (xs ++ ys) ++ zs ≡ xs ++ (ys ++ zs)
append_assoc [] ys zs = refl
append_assoc (x ∷ xs) ys zs = ap (λ l. x ∷ l) (append_assoc xs ys zs)

bounded : (n : ℕ) → 0 < n → n ≤ max_record_bytes → not (n == 0 || ltb max_record_bytes n) ≡ true
bounded n h k = ground arith

module _ (xxh3_64 : List ℕ → ℕ) where
  -- The reader past a record.
  abbrev pub past : JournalReader → ℕ → List ℕ → JournalReader
  past r len tail = record r {
    reader = tail;
    remaining = r.remaining - 4 - 8 - len - 8;
    consumed = r.consumed + (4 + 8 + len + 8);
    expected_block = (r.expected_block + 1) % 2 ^ 64;
  }

  pub length-record_bytes :
      (payload : List ℕ) (n : ℕ)
      → length (record_bytes xxh3_64 payload n) ≡ 4 + 8 + length payload + 8
  unfolding record_bytes
  length-record_bytes payload n =
      let n_bytes = to_le_bytes 8 n in
      let hash = to_le_bytes 8 (xxh3_64 (n_bytes ++ payload)) in
      omega (
        arith,
        length-append (to_le_bytes 4 (length payload)) (n_bytes ++ (payload ++ hash)),
        length-append n_bytes (payload ++ hash),
        length-append payload hash,
        length-to_le_bytes 4 (length payload),
        length-to_le_bytes 8 n,
        length-to_le_bytes 8 (xxh3_64 (n_bytes ++ payload)),
      )

  -- What the writer and the format's bounds give of a record.
  pub record IsRecord (payload : List ℕ) (n : ℕ) : Type 0 where
    pub some_bytes : 0 < length payload
    pub few_bytes : length payload ≤ max_record_bytes
    pub items : n < 256 ^ 8
    pub hash : xxh3_64 (to_le_bytes 8 n ++ payload) < 256 ^ 8

  read_record_bytes :
      (r : JournalReader) (payload tail : List ℕ) (n remaining : ℕ) (d : BlockDelta)
      → IsRecord payload n
      → 8 + length payload + 8 ≤ remaining
      → decode_block_delta payload r.plaintext_bits r.arity ≡ ok d
      → d.block ≡ r.expected_block
      → read_record xxh3_64 r (length payload) remaining (
          to_le_bytes 8 n
          ++ (payload ++ (to_le_bytes 8 (xxh3_64 (to_le_bytes 8 n ++ payload)) ++ tail)))
        ≡ ok (
          record {
            delta = d;
            num_items_after = n;
            end_offset = r.consumed + (4 + 8 + length payload + 8);
          },
          record r {
            reader = tail;
            remaining = remaining - 8 - length payload - 8;
            consumed = r.consumed + (4 + 8 + length payload + 8);
            expected_block = (r.expected_block + 1) % 2 ^ 64;
          },
        )
  unfolding read_record
  read_record_bytes r payload tail n remaining d h room decoded at =
      let hash = xxh3_64 (to_le_bytes 8 n ++ payload) in
      let small : not (length payload == 0 || ltb max_record_bytes (length payload)) ≡ true =
        bounded (length payload) h.some_bytes h.few_bytes in
      let fits : leb (8 + length payload + 8) remaining ≡ true = ground arith in
      let same : (hash == hash) ≡ true = ground arith in
      let right : (d.block == r.expected_block) ≡ true = ground (arith, at) in
      rw
        (
          small,
          fits,
          take_bytes-append _ 8 (to_le_bytes 8 n) (payload ++ (to_le_bytes 8 hash ++ tail))
              (length-to_le_bytes 8 n),
          take_bytes-append _ (length payload) payload (to_le_bytes 8 hash ++ tail) refl,
          take_bytes-append _ 8 (to_le_bytes 8 hash) tail (length-to_le_bytes 8 hash),
          from_le_bytes-to_le_bytes 8 hash h.hash,
          from_le_bytes-to_le_bytes 8 n h.items,
          same,
          decoded,
          right,
        )
        refl

  pub try_next-record_bytes :
      (r : JournalReader) (payload tail : List ℕ) (n : ℕ) (d : BlockDelta)
      → IsRecord payload n
      → r.reader ≡ record_bytes xxh3_64 payload n ++ tail
      → r.remaining ≡ length r.reader
      → decode_block_delta payload r.plaintext_bits r.arity ≡ ok d
      → d.block ≡ r.expected_block
      → try_next xxh3_64 r
        ≡ ok (
            some (
              record {
                delta = d;
                num_items_after = n;
                end_offset = r.consumed + (4 + 8 + length payload + 8);
              },
              past r (length payload) tail,
            ))
  unfolding try_next record_bytes read_record
  try_next-record_bytes r payload tail n d h at left decoded height =
      let long = length-record_bytes payload n in
      let room : 4 + 8 + length payload + 8 ≤ r.remaining =
        omega
          (arith, left, ap length at, length-append (record_bytes xxh3_64 payload n) tail, long) in
      let more : (r.remaining == 0) ≡ false = ground arith in
      let enough : ltb r.remaining 4 ≡ false = ground arith in
      let n_bytes = to_le_bytes 8 n in
      let hash = to_le_bytes 8 (xxh3_64 (n_bytes ++ payload)) in
      let split : r.reader
          ≡ to_le_bytes 4 (length payload) ++ (n_bytes ++ (payload ++ (hash ++ tail))) =
        at
        ∙ append_assoc (to_le_bytes 4 (length payload)) (n_bytes ++ (payload ++ hash)) tail
        ∙ ap (λ l. to_le_bytes 4 (length payload) ++ l)
            (append_assoc n_bytes (payload ++ hash) tail
              ∙ ap (λ l. n_bytes ++ l) (append_assoc payload hash tail)) in
      rw
        (
          more,
          enough,
          split,
          take_bytes-append _ 4 (to_le_bytes 4 (length payload))
              (n_bytes ++ (payload ++ (hash ++ tail))) (length-to_le_bytes 4 (length payload)),
          from_le_bytes-to_le_bytes 4 (length payload) (omega (arith, h.few_bytes)),
          read_record_bytes r payload tail n (r.remaining - 4) d h (omega (arith, room)) decoded
              height,
        )
        refl

  pub next_open :
      (r : JournalReader) → r.done ≡ false → next xxh3_64 r ≡ advance xxh3_64 r (try_next xxh3_64 r)
  unfolding next
  next_open r d = ap (λ b. if b then ok (none, r) else advance xxh3_64 r (try_next xxh3_64 r)) d

  pub at_end :
      (r : JournalReader)
      → r.done ≡ false
      → r.remaining ≡ 0
      → next xxh3_64 r ≡ ok (none, record r { done = true; stop = some eof })
  unfolding try_next
  at_end r d e =
      let z : (r.remaining == 0) ≡ true = (==_iff r.remaining 0).1 e in next_open r d ∙ rw z refl
