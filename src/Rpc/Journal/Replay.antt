-- ===== src/Rpc/Journal/Replay.antt =====
-- What is appended to a journal is what a scan of it reads.
use private_eth_getbalance_w.Prelude.{
  ℕ, zero, suc, ◌+◌, ◌%◌, ◌^◌, ◌≤◌, ◌<◌, ◌≡◌, refl, sym, subst, ◌∙◌, ap, arith, List, [], ◌∷◌, ◌++◌,
  map, true, false, some, Outcome, ok, length, ltb, ◌==◌, ==_iff, length-append, >>=-eq-ok, ◌>>=◌,
  guard, guard-true, ok-injective, All,
}
use mathlib.Core.List.{append-nil}
use private_eth_getbalance_w.Proto.Delta.{BlockDelta}
use private_eth_getbalance_w.Proto.Codec.{to_le_bytes, encode_block_delta, decode_block_delta}
use private_eth_getbalance_w.Proto.Codec.RoundTrip.{
  IsEncodable, frame, encode_frame, decode_frame, sort_segment,
}
use private_eth_getbalance_w.Rpc.Journal.{
  JournalError, gap, payload_too_long, JournalReader, JournalWriter, ScanRecord, eof,
  max_record_bytes, next, scan, append, record_bytes, advance,
}
use private_eth_getbalance_w.Rpc.Journal.Record.{
  IsRecord, past, append_assoc, length-record_bytes, try_next-record_bytes, next_open, at_end,
}

-- A delta as it is decoded: rows and offsets in ascending order.
abbrev pub sorted : BlockDelta → BlockDelta
sorted d = record { block = d.block; per_segment = map sort_segment d.per_segment }

-- The deltas that are appended, each with the number of items after it.
abbrev pub Entries : Type 0
Entries = List (BlockDelta × ℕ)

-- The heights go up by one, as u64s, from `expected` on.
abbrev pub IsConsecutive : ℕ → Entries → Type 0
IsConsecutive expected [] = Unit
IsConsecutive expected ((d, n) ∷ entries) =
    (d.block ≡ expected) × IsConsecutive ((expected + 1) % 2 ^ 64) entries

module _ (xxh3_64 : List ℕ → ℕ) (plaintext_bits arity : ℕ) where
  -- A delta of the deployment's format whose record is no longer than a record may be.
  pub record IsEntry (entry : BlockDelta × ℕ) : Type 0 where
    pub encodable : IsEncodable plaintext_bits entry.0
    pub segments : length entry.0.per_segment ≡ arity
    pub short : length (frame entry.0) ≤ max_record_bytes
    pub items : entry.1 < 256 ^ 8

  entry-IsRecord :
      (d : BlockDelta) (n : ℕ)
      → ((bytes : List ℕ) → xxh3_64 bytes < 256 ^ 8)
      → IsEntry (d, n)
      → IsRecord xxh3_64 (frame d) n
  entry-IsRecord d n hash h = record {
    some_bytes = omega arith;
    few_bytes = h.short;
    items = h.items;
    hash = hash (to_le_bytes 8 n ++ frame d);
  }

  unfoldable pub append_all : Entries → JournalWriter → Outcome JournalError JournalWriter
  append_all [] w = ok w
  append_all ((d, n) ∷ entries) w = do w ← append xxh3_64 d n w; append_all entries w

  abbrev pub bytes_of : Entries → List ℕ
  bytes_of [] = []
  bytes_of ((d, n) ∷ entries) = record_bytes xxh3_64 (frame d) n ++ bytes_of entries

  -- One append that succeeds, of a delta that the format can hold.
  append-eq-ok :
      (d : BlockDelta) (n : ℕ) (w w' : JournalWriter)
      → length d.per_segment ≤ 255
      → append xxh3_64 d n w ≡ ok w'
      → (d.block ≡ (w.last + 1) % 2 ^ 64)
        × (w' ≡ record w { file = w.file ++ record_bytes xxh3_64 (frame d) n; last = d.block })
  unfolding append
  append-eq-ok d n w w' small e =
      let expected = (w.last + 1) % 2 ^ 64 in
      let (u, height, e) = >>=-eq-ok (guard (d.block == expected) (gap expected d.block)) _ e in
      let encoded : encode_block_delta d ≡ ok (frame d) = encode_frame d small in
      let e = rw encoded at e in
      let (v, short, e) =
        >>=-eq-ok (guard (ltb (length (frame d)) (2 ^ 32)) (payload_too_long (length (frame d)))) _
          e in
      ((==_iff d.block expected).0 (guard-true _ _ u height), sym (ok-injective _ w' e))

  -- What the appends add to a file.
  pub append_all_lem :
      (entries : Entries) (w w' : JournalWriter)
      → All IsEntry entries
      → append_all entries w ≡ ok w'
      → (w'.file ≡ w.file ++ bytes_of entries) × IsConsecutive ((w.last + 1) % 2 ^ 64) entries
  unfolding append_all
  append_all_lem [] w w' h e =
      let same : w ≡ w' = ok-injective w w' e in
      (sym (ap (λ v. v.file) same) ∙ sym (append-nil w.file), tt)
  append_all_lem ((d, n) ∷ entries) w w' (h, hs) e =
      let (mid, first, rest) = >>=-eq-ok (append xxh3_64 d n w) _ e in
      let (height, at) = append-eq-ok d n w mid h.encodable.arity first in
      let (file, heights) = append_all_lem entries mid w' hs rest in
      let next_height : (mid.last + 1) % 2 ^ 64 ≡ ((w.last + 1) % 2 ^ 64 + 1) % 2 ^ 64 =
        ap (λ v. (v.last + 1) % 2 ^ 64) at ∙ ap (λ b. (b + 1) % 2 ^ 64) height in
      (
        file
            ∙ ap (λ v. v.file ++ bytes_of entries) at
            ∙ append_assoc w.file (record_bytes xxh3_64 (frame d) n) (bytes_of entries),
        (height, subst (λ b. IsConsecutive b entries) next_height heights),
      )

  -- The height after the entries.
  abbrev pub height_after : ℕ → Entries → ℕ
  height_after expected [] = expected
  height_after expected (entry ∷ entries) = height_after ((expected + 1) % 2 ^ 64) entries

  -- The head of a writer, as the height after the entries.
  pub append_all_last :
      (entries : Entries) (w w' : JournalWriter)
      → All IsEntry entries
      → append_all entries w ≡ ok w'
      → w.last < 2 ^ 64
      → (w'.last < 2 ^ 64) × ((w'.last + 1) % 2 ^ 64 ≡ height_after ((w.last + 1) % 2 ^ 64) entries)
  unfolding append_all
  append_all_last [] w w' h e room =
      let same : w ≡ w' = ok-injective w w' e in rw (← same) (room, refl)
  append_all_last ((d, n) ∷ entries) w w' (h, hs) e room =
      let (mid, first, rest) = >>=-eq-ok (append xxh3_64 d n w) _ e in
      let (height, at) = append-eq-ok d n w mid h.encodable.arity first in
      let last : mid.last ≡ d.block = ap (λ v. v.last) at in
      let (small, heights) = append_all_last entries mid w' hs rest (omega (arith, last, height)) in
      (small, heights ∙ ap (λ b. height_after ((b + 1) % 2 ^ 64) entries) (last ∙ height))

  -- The records of a scan from an offset on.
  abbrev pub records_of : ℕ → Entries → List ScanRecord
  records_of offset [] = []
  records_of offset ((d, n) ∷ entries) =
      let end = offset + (4 + 8 + length (frame d) + 8) in
      record { delta = sorted d; num_items_after = n; end_offset = end } ∷ records_of end entries

  -- The reader stands before the bytes of the entries, at the first one's height.
  pub record IsBefore (r : JournalReader) (entries : Entries) : Type 0 where
    pub reader : r.reader ≡ bytes_of entries
    pub remaining : r.remaining ≡ length (bytes_of entries)
    pub done : r.done ≡ false
    pub bits : r.plaintext_bits ≡ plaintext_bits
    pub segments : r.arity ≡ arity
    pub heights : IsConsecutive r.expected_block entries

  next_entry :
      (d : BlockDelta) (n : ℕ) (entries : Entries) (r : JournalReader)
      → ((bytes : List ℕ) → xxh3_64 bytes < 256 ^ 8)
      → IsEntry (d, n)
      → IsBefore r ((d, n) ∷ entries)
      → next xxh3_64 r
        ≡ ok (
          some (record {
            delta = sorted d;
            num_items_after = n;
            end_offset = r.consumed + (4 + 8 + length (frame d) + 8);
          }),
          past xxh3_64 r (length (frame d)) (bytes_of entries),
        )
  next_entry d n entries r hash h b =
      let decoded : decode_block_delta (frame d) r.plaintext_bits r.arity ≡ ok (sorted d) =
        rw (b.bits, b.segments, ← h.segments) (decode_frame plaintext_bits d h.encodable) in
      let found =
        try_next-record_bytes xxh3_64 r (frame d) (bytes_of entries) n (sorted d)
          (entry-IsRecord d n hash h) b.reader (b.remaining ∙ ap length (sym b.reader)) decoded
          b.heights.0 in
      next_open xxh3_64 r b.done ∙ ap (advance xxh3_64 r) found

  past-IsBefore :
      (d : BlockDelta) (n : ℕ) (entries : Entries) (r : JournalReader)
      → IsBefore r ((d, n) ∷ entries)
      → IsBefore (past xxh3_64 r (length (frame d)) (bytes_of entries)) entries
  past-IsBefore d n entries r b = record {
    reader = refl;
    remaining = omega (
      arith,
      b.remaining,
      length-append (record_bytes xxh3_64 (frame d) n) (bytes_of entries),
      length-record_bytes xxh3_64 (frame d) n,
    );
    done = b.done;
    bits = b.bits;
    segments = b.segments;
    heights = b.heights.1;
  }

  pub scan_entries :
      (fuel : ℕ) (entries : Entries) (r : JournalReader)
      → ((bytes : List ℕ) → xxh3_64 bytes < 256 ^ 8)
      → All IsEntry entries
      → IsBefore r entries
      → length entries < fuel
      → (r' : JournalReader) × (scan xxh3_64 fuel r ≡ ok (records_of r.consumed entries, r'))
        × (r'.stop ≡ some eof)
        × (r'.consumed ≡ r.consumed + length (bytes_of entries))
        × (r'.expected_block ≡ height_after r.expected_block entries)
  unfolding scan
  scan_entries zero entries r hash h b f = absurd (omega (arith, f))
  scan_entries (suc fuel) [] r hash h b f = (
    record r { done = true; stop = some eof },
    rw (at_end xxh3_64 r b.done b.remaining) refl,
    refl,
    omega arith,
    refl,
  )
  scan_entries (suc fuel) ((d, n) ∷ entries) r hash (h, hs) b f =
      let (r', rest, stop, consumed, heights) =
        scan_entries fuel entries (past xxh3_64 r (length (frame d)) (bytes_of entries)) hash hs
          (past-IsBefore d n entries r b) (omega (arith, f)) in
      (
        r',
        rw (next_entry d n entries r hash h b, rest) refl,
        stop,
        omega (
          arith,
          consumed,
          length-append (record_bytes xxh3_64 (frame d) n) (bytes_of entries),
          length-record_bytes xxh3_64 (frame d) n,
        ),
        heights,
      )
