-- ===== src/Rpc/Journal/Recover.antt =====
-- Recovery: a file cut off where its scan ended holds what the scan read, and no more.
use private_eth_getbalance_w.Prelude.{
  ℕ, ◌+◌, ◌-◌, ◌%◌, ◌^◌, ◌≤◌, ◌<◌, ◌≡◌, refl, sym, ◌∙◌, ap, arith, List, ◌++◌, not, ◌||◌, true,
  false, Option, some, Outcome, ok, length, take, ltb, leb, ◌==◌, ==_iff, >>=-eq-ok, ◌>>=◌, guard,
  guard-true, ok-injective, Bool-cases, inl, inr,
}
use private_eth_getbalance_w.Proto.Delta.{BlockDelta}
use private_eth_getbalance_w.Proto.Codec.{from_le_bytes, decode_block_delta}
use private_eth_getbalance_w.Rpc.Journal.{
  JournalReader, ScanRecord, StopReason, length_out_of_bounds, exceeds_remaining, read_error,
  checksum_mismatch, height_gap, max_record_bytes, take_bytes, map_codec_error, read_record,
  try_next,
}
use private_eth_getbalance_w.Rpc.Journal.Take.{at_least, take_bytes-take}

some_of :
    (a c : ScanRecord × JournalReader)
    → ◌≡◌ {A = Outcome (StopReason × ℕ) (Option (ScanRecord × JournalReader))}
        (ok (some a))
        (ok (some c))
    → a ≡ c
some_of a c h = cc

leb_le : (a c : ℕ) → leb a c ≡ true → a ≤ c
leb_le a c h = ground arith

cut_size : (m len : ℕ) → m - 4 - 8 - len - 8 ≡ m - (4 + 8 + len + 8)
cut_size m len = omega arith

module _ (xxh3_64 : List ℕ → ℕ) where
  -- A reader of the first `m` bytes alone.
  abbrev pub cut : ℕ → JournalReader → JournalReader
  cut m r = record r { reader = take m r.reader; remaining = m }

  -- What a record that is read comes to.
  record Parsed (r : JournalReader) (len remaining : ℕ) (bytes : List ℕ) (rec : ScanRecord)
      (r1 : JournalReader) : Type 0 where
    n_bytes : List ℕ
    after_n : List ℕ
    payload : List ℕ
    after_payload : List ℕ
    xxh_bytes : List ℕ
    rest : List ℕ
    delta : BlockDelta
    small : not (len == 0 || ltb max_record_bytes len) ≡ true
    fits : leb (8 + len + 8) remaining ≡ true
    first : take_bytes {E = StopReason × ℕ} (read_error, r.consumed) 8 bytes ≡ ok (n_bytes, after_n)
    second :
        take_bytes {E = StopReason × ℕ} (read_error, r.consumed) len after_n
        ≡ ok (payload, after_payload)
    third :
        take_bytes {E = StopReason × ℕ} (read_error, r.consumed) 8 after_payload
        ≡ ok (xxh_bytes, rest)
    same : (xxh3_64 (n_bytes ++ payload) == from_le_bytes xxh_bytes) ≡ true
    decoded :
        (map_codec_error r.consumed (decode_block_delta payload r.plaintext_bits r.arity)
          ≡ ok delta)
    height : (delta.block == r.expected_block) ≡ true
    found :
        (rec ≡ record {
          delta = delta;
          num_items_after = from_le_bytes n_bytes;
          end_offset = r.consumed + (4 + 8 + len + 8);
        })
    moved :
        (r1 ≡ record r {
          reader = rest;
          remaining = remaining - 8 - len - 8;
          consumed = r.consumed + (4 + 8 + len + 8);
          expected_block = (r.expected_block + 1) % 2 ^ 64;
        })

  parsed :
      (r : JournalReader) (len remaining : ℕ) (bytes : List ℕ) (rec : ScanRecord)
      (r1 : JournalReader)
      → read_record xxh3_64 r len remaining bytes ≡ ok (rec, r1)
      → Parsed r len remaining bytes rec r1
  unfolding read_record
  parsed r len remaining bytes rec r1 e =
      let (u0, small, e) =
        >>=-eq-ok
          (guard {E = StopReason × ℕ} (not (len == 0 || ltb max_record_bytes len))
            (length_out_of_bounds len, r.consumed))
          _ e in
      let (u1, fits, e) =
        >>=-eq-ok
          (guard {E = StopReason × ℕ} (leb (8 + len + 8) remaining)
            (exceeds_remaining len remaining, r.consumed))
          _ e in
      let ((n_bytes, b1), first, e) =
        >>=-eq-ok (take_bytes {E = StopReason × ℕ} (read_error, r.consumed) 8 bytes) _ e in
      let ((payload, b2), second, e) =
        >>=-eq-ok (take_bytes {E = StopReason × ℕ} (read_error, r.consumed) len b1) _ e in
      let ((xxh_bytes, b3), third, e) =
        >>=-eq-ok (take_bytes {E = StopReason × ℕ} (read_error, r.consumed) 8 b2) _ e in
      let (u2, same, e) =
        >>=-eq-ok
          (guard {E = StopReason × ℕ} (xxh3_64 (n_bytes ++ payload) == from_le_bytes xxh_bytes)
            (checksum_mismatch, r.consumed))
          _ e in
      let (delta, decoded, e) =
        >>=-eq-ok (map_codec_error r.consumed (decode_block_delta payload r.plaintext_bits r.arity))
          _ e in
      let (u3, height, e) =
        >>=-eq-ok
          (guard {E = StopReason × ℕ} (delta.block == r.expected_block)
            (height_gap r.expected_block delta.block, r.consumed))
          _ e in
      record {
        n_bytes = n_bytes;
        after_n = b1;
        payload = payload;
        after_payload = b2;
        xxh_bytes = xxh_bytes;
        rest = b3;
        delta = delta;
        small = guard-true _ _ u0 small;
        fits = guard-true _ _ u1 fits;
        first = first;
        second = second;
        third = third;
        same = guard-true _ _ u2 same;
        decoded = decoded;
        height = guard-true _ _ u3 height;
        found = sym (ap (λ p. p.0) (ok-injective _ (rec, r1) e));
        moved = sym (ap (λ p. p.1) (ok-injective _ (rec, r1) e));
      }

  -- The same record out of the first `m` bytes, by a reader that differs in what it has left.
  read_record-take :
      (r : JournalReader) (len remaining m : ℕ) (bytes : List ℕ) (rec : ScanRecord)
      (r1 : JournalReader) (x : List ℕ) (y : ℕ)
      → Parsed r len remaining bytes rec r1
      → 8 + len + 8 ≤ m
      → read_record xxh3_64 (record r { reader = x; remaining = y }) len m (take m bytes)
        ≡ ok (rec, cut (m - 8 - len - 8) r1)
  unfolding read_record
  read_record-take r len remaining m bytes rec r1 x y p room =
      let fits : leb (8 + len + 8) m ≡ true = ground arith in
      let (first, n1) =
        take_bytes-take (read_error, r.consumed) 8 m bytes p.n_bytes p.after_n p.first
          (omega (arith, room)) in
      let (second, n2) =
        take_bytes-take (read_error, r.consumed) len (m - 8) p.after_n p.payload p.after_payload
          p.second (omega (arith, room)) in
      let (third, n3) =
        take_bytes-take (read_error, r.consumed) 8 (m - 8 - len) p.after_payload p.xxh_bytes p.rest
          p.third (omega (arith, room)) in
      rw (p.small, fits, first, second, third, p.same, p.decoded, p.height, p.found, p.moved) refl

  -- What is known of a step: where it leads, and that it is the same for a reader that is cut off no
  -- earlier than the record's end.
  pub record Stepped (r : JournalReader) (rec : ScanRecord) (r1 : JournalReader) : Type 0 where
    pub size : ℕ
    pub some_bytes : 0 < size
    pub moved : r1.consumed ≡ r.consumed + size
    pub left : size + r1.remaining ≡ r.remaining
    pub whole : r1.remaining ≡ length r1.reader
    pub going : r1.done ≡ r.done
    pub expected : r1.expected_block ≡ (r.expected_block + 1) % 2 ^ 64
    pub height : rec.delta.block ≡ r.expected_block
    pub end : rec.end_offset ≡ r1.consumed
    pub again :
        ((m : ℕ) → size ≤ m → try_next xxh3_64 (cut m r) ≡ ok (some (rec, cut (m - size) r1)))

  Parsed-Stepped :
      (r : JournalReader) (len : ℕ) (bytes : List ℕ) (rec : ScanRecord) (r1 : JournalReader)
      → Parsed r len (r.remaining - 4) bytes rec r1
      → r.remaining - 4 ≡ length bytes
      → 4 ≤ r.remaining
      → ((m : ℕ)
          → 4 ≤ m
          → try_next xxh3_64 (cut m r) ≡ (
              read_record xxh3_64 (cut m r) len (m - 4) (take (m - 4) bytes) >>= λ found.
              ok (some found)))
      → Stepped r rec r1
  Parsed-Stepped r len bytes rec r1 p room four again =
      let fits : 8 + len + 8 ≤ r.remaining - 4 = leb_le (8 + len + 8) (r.remaining - 4) p.fits in
      let (a, n1) = take_bytes-take _ 8 8 bytes p.n_bytes p.after_n p.first (omega arith) in
      let (c, n2) =
        take_bytes-take _ len len p.after_n p.payload p.after_payload p.second (omega arith) in
      let (d, n3) =
        take_bytes-take _ 8 8 p.after_payload p.xxh_bytes p.rest p.third (omega arith) in
      let r1_left : r1.remaining ≡ r.remaining - 4 - 8 - len - 8 = ap (λ s. s.remaining) p.moved in
      let r1_reader : r1.reader ≡ p.rest = ap (λ s. s.reader) p.moved in
      record {
        size = 4 + 8 + len + 8;
        some_bytes = omega arith;
        moved = ap (λ s. s.consumed) p.moved;
        left = omega (arith, r1_left, fits);
        whole = omega (arith, r1_left, ap length r1_reader, n1, n2, n3, room);
        going = ap (λ s. s.done) p.moved;
        expected = ap (λ s. s.expected_block) p.moved;
        height = ap (λ s. s.delta.block) p.found ∙ (==_iff _ _).0 p.height;
        end = ap (λ s. s.end_offset) p.found ∙ sym (ap (λ s. s.consumed) p.moved);
        again = λ m enough.
            again m (omega (arith, enough))
            ∙ ap (λ o. o >>= λ found. ok (some found))
                (read_record-take r len (r.remaining - 4) (m - 4) bytes rec r1 (take m r.reader) m p
                  (omega (arith, enough)))
            ∙ ap (λ k. ok (some (rec, cut k r1))) (cut_size m len);
      }

  prefixed_lem :
      (r : JournalReader) (len_bytes bytes : List ℕ) (rec : ScanRecord) (r1 : JournalReader)
      → take_bytes {E = StopReason × ℕ} (read_error, r.consumed) 4 r.reader ≡ ok (len_bytes, bytes)
      → read_record xxh3_64 r (from_le_bytes len_bytes) (r.remaining - 4) bytes ≡ ok (rec, r1)
      → r.remaining ≡ length r.reader
      → 4 ≤ r.remaining
      → Stepped r rec r1
  unfolding try_next
  prefixed_lem r len_bytes bytes rec r1 first read room four =
      let (same, n) = take_bytes-take _ 4 4 r.reader len_bytes bytes first (omega arith) in
      Parsed-Stepped r (from_le_bytes len_bytes) bytes rec r1
        (parsed r (from_le_bytes len_bytes) (r.remaining - 4) bytes rec r1 read)
        (omega (arith, n, room)) four
        (λ m enough.
          let nz : (m == 0) ≡ false = ground arith in
          let long : ltb m 4 ≡ false = ground arith in
          let (cut_first, k) = take_bytes-take _ 4 m r.reader len_bytes bytes first enough in
          rw (nz, long, cut_first) refl)

  -- The length prefix and the record after it.
  prefixed :
      (r : JournalReader) (rec : ScanRecord) (r1 : JournalReader)
      → (do
        (len_bytes, bytes) ← take_bytes {E = StopReason × ℕ} (read_error, r.consumed) 4 r.reader
        found ← read_record xxh3_64 r (from_le_bytes len_bytes) (r.remaining - 4) bytes
        ok (some found))
        ≡ ok (some (rec, r1))
      → r.remaining ≡ length r.reader
      → 4 ≤ r.remaining
      → Stepped r rec r1
  prefixed r rec r1 e room four =
      let ((len_bytes, bytes), first, e) =
        >>=-eq-ok (take_bytes {E = StopReason × ℕ} (read_error, r.consumed) 4 r.reader)
          (λ p. read_record xxh3_64 r (from_le_bytes p.0) (r.remaining - 4) p.1 >>= λ found.
            ok (some found))
          e in
      let (found, p, e) =
        >>=-eq-ok (read_record xxh3_64 r (from_le_bytes len_bytes) (r.remaining - 4) bytes)
          (λ found. ok (some found)) e in
      let same : found ≡ (rec, r1) = some_of found (rec, r1) e in
      prefixed_lem r len_bytes bytes rec r1 first (rw same at p) room four

  pub try_next-Stepped :
      (r : JournalReader) (rec : ScanRecord) (r1 : JournalReader)
      → try_next xxh3_64 r ≡ ok (some (rec, r1))
      → r.remaining ≡ length r.reader
      → Stepped r rec r1
  unfolding try_next
  try_next-Stepped r rec r1 e room = elim (Bool-cases (r.remaining == 0)) [
    | inl z ↦ absurd (cc (rw z at e))
    | inr nz ↦ elim (Bool-cases (ltb r.remaining 4)) [
      | inl short ↦ absurd (cc (rw (nz, short) at e))
      | inr long ↦ prefixed r rec r1 (rw (nz, long) at e) room (at_least r.remaining 4 long)
    ]
  ]
