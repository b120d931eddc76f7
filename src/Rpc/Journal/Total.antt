-- ===== src/Rpc/Journal/Total.antt =====
-- The scan of any file comes to a stop, and a restart's adoption of what it read.
use private_eth_getbalance_w.Prelude.{
  ℕ, zero, suc, ◌+◌, ◌-◌, ◌%◌, ◌^◌, ◌≤◌, ◌<◌, ◌≡◌, refl, arith, List, [], ◌∷◌, ◌++◌, not, ◌||◌,
  true, false, Bool, Option, none, some, Outcome, ok, err, panic, ◌>>=◌, ◌>>◌, length, ltb, leb,
  ◌==◌, All, guard, IsPanicFree, >>=-IsPanicFree, guard-IsPanicFree, if◌then◌else◌,
}
use private_eth_getbalance_w.Proto.Varint.{CodecError}
use private_eth_getbalance_w.Proto.Codec.{from_le_bytes, decode_block_delta}
use private_eth_getbalance_w.Proto.Codec.Total.{decode_block_delta-IsPanicFree}
use private_eth_getbalance_w.Rpc.Journal.{
  JournalReader, ScanRecord, ScanStop, StopReason, eof, length_out_of_bounds, exceeds_remaining,
  read_error, checksum_mismatch, height_gap, torn_length, max_record_bytes, take_bytes,
  map_codec_error, read_record, try_next, advance, next, scan_rest, scan,
}
use private_eth_getbalance_w.Rpc.Journal.Recover.{cut}
use private_eth_getbalance_w.Rpc.Journal.Scan.{IsRise, scan-Scanned}

if-IsPanicFree :
    {E : Type 0} {A : Type 0} (b : Bool) (first second : Outcome E A)
    → IsPanicFree first
    → IsPanicFree second
    → IsPanicFree (if b then first else second)
if-IsPanicFree true first second h k = h
if-IsPanicFree false first second h k = k

take_bytes-IsPanicFree :
    {E : Type 0} (e : E) (n : ℕ) (bytes : List ℕ) → IsPanicFree (take_bytes e n bytes)
unfolding take_bytes
take_bytes-IsPanicFree e n bytes = if-IsPanicFree (ltb (length bytes) n) (err e) (ok _) tt tt

map_codec_error-IsPanicFree :
    {A : Type 0} (consumed : ℕ) (run : Outcome CodecError A)
    → IsPanicFree run
    → IsPanicFree (map_codec_error consumed run)
map_codec_error-IsPanicFree consumed (ok a) h = tt
map_codec_error-IsPanicFree consumed (err e) h = tt
map_codec_error-IsPanicFree consumed panic h = h

module _ (xxh3_64 : List ℕ → ℕ) where
  -- From the checksum on.
  checked-IsPanicFree :
      (r : JournalReader) (len remaining : ℕ) (n_bytes payload xxh_bytes bytes : List ℕ)
      → IsPanicFree {E = StopReason × ℕ} {A = ScanRecord × JournalReader} (do
        guard
            (xxh3_64 (n_bytes ++ payload) == from_le_bytes xxh_bytes)
            (checksum_mismatch, r.consumed)
        delta ← map_codec_error r.consumed (decode_block_delta payload r.plaintext_bits r.arity)
        guard
            (delta.block == r.expected_block)
            (height_gap r.expected_block delta.block, r.consumed)
        ok (
          record {
            delta = delta;
            num_items_after = from_le_bytes n_bytes;
            end_offset = r.consumed + (4 + 8 + len + 8);
          },
          record r {
            reader = bytes;
            remaining = remaining - 8 - len - 8;
            consumed = r.consumed + (4 + 8 + len + 8);
            expected_block = (r.expected_block + 1) % 2 ^ 64;
          },
        ))
  checked-IsPanicFree r len remaining n_bytes payload xxh_bytes bytes =
      let same = xxh3_64 (n_bytes ++ payload) == from_le_bytes xxh_bytes in
      let decoded = decode_block_delta payload r.plaintext_bits r.arity in
      >>=-IsPanicFree {E = StopReason × ℕ} (guard same (checksum_mismatch, r.consumed)) _
        (guard-IsPanicFree {E = StopReason × ℕ} same (checksum_mismatch, r.consumed))
        (λ u0.
          >>=-IsPanicFree (map_codec_error r.consumed decoded) _
            (map_codec_error-IsPanicFree r.consumed decoded
              (decode_block_delta-IsPanicFree payload r.plaintext_bits r.arity))
            (λ delta.
              >>=-IsPanicFree {E = StopReason × ℕ}
                (guard (delta.block == r.expected_block)
                  (height_gap r.expected_block delta.block, r.consumed))
                _
                (guard-IsPanicFree {E = StopReason × ℕ} (delta.block == r.expected_block)
                  (height_gap r.expected_block delta.block, r.consumed))
                (λ u1. tt)))

  read_record-IsPanicFree :
      (r : JournalReader) (len remaining : ℕ) (bytes : List ℕ)
      → IsPanicFree (read_record xxh3_64 r len remaining bytes)
  unfolding read_record
  read_record-IsPanicFree r len remaining bytes =
      let failed : StopReason × ℕ = (read_error, r.consumed) in
      let small = not (len == 0 || ltb max_record_bytes len) in
      let fits = leb (8 + len + 8) remaining in
      >>=-IsPanicFree {E = StopReason × ℕ} (guard small (length_out_of_bounds len, r.consumed)) _
        (guard-IsPanicFree {E = StopReason × ℕ} small (length_out_of_bounds len, r.consumed))
        (λ u0.
          >>=-IsPanicFree {E = StopReason × ℕ}
            (guard fits (exceeds_remaining len remaining, r.consumed)) _
            (guard-IsPanicFree {E = StopReason × ℕ} fits
              (exceeds_remaining len remaining, r.consumed))
            (λ u1.
              >>=-IsPanicFree (take_bytes failed 8 bytes) _ (take_bytes-IsPanicFree failed 8 bytes)
                (λ n.
                  >>=-IsPanicFree (take_bytes failed len n.1) _
                    (take_bytes-IsPanicFree failed len n.1)
                    (λ p.
                      >>=-IsPanicFree (take_bytes failed 8 p.1) _
                        (take_bytes-IsPanicFree failed 8 p.1)
                        (λ x. checked-IsPanicFree r len remaining n.0 p.0 x.0 x.1)))))

  try_next-IsPanicFree : (r : JournalReader) → IsPanicFree (try_next xxh3_64 r)
  unfolding try_next
  try_next-IsPanicFree r =
      let failed : StopReason × ℕ = (read_error, r.consumed) in
      if-IsPanicFree (r.remaining == 0) (ok none) _ tt (
        if-IsPanicFree (ltb r.remaining 4) (err (torn_length, r.consumed)) _ tt (
          >>=-IsPanicFree (take_bytes failed 4 r.reader) _
            (take_bytes-IsPanicFree failed 4 r.reader)
            (λ p.
              >>=-IsPanicFree (read_record xxh3_64 r (from_le_bytes p.0) (r.remaining - 4) p.1) _
                (read_record-IsPanicFree r (from_le_bytes p.0) (r.remaining - 4) p.1) (λ f. tt))))

  advance_total :
      (r : JournalReader) (found : Outcome (StopReason × ℕ) (Option (ScanRecord × JournalReader)))
      → IsPanicFree found
      → (p : Option ScanRecord × JournalReader) × (advance xxh3_64 r found ≡ ok p)
  advance_total r (ok (some (rec, r1))) h = ((some rec, r1), refl)
  advance_total r (ok none) h = (_, refl)
  advance_total r (err (reason, offset)) h = (_, refl)
  advance_total r panic h = absurd h

  next_total :
      (r : JournalReader) → (p : Option ScanRecord × JournalReader) × (next xxh3_64 r ≡ ok p)
  unfolding next
  next_total r = if_total r.done
    where
      if_total :
          (done : Bool)
          → (p : Option ScanRecord × JournalReader) × ((if done
                then ok (none, r)
                else advance xxh3_64 r (try_next xxh3_64 r))
              ≡ ok p)
      if_total true = ((none, r), refl)
      if_total false = advance_total r (try_next xxh3_64 r) (try_next-IsPanicFree r)

  rest_total :
      (found : Option ScanRecord) (r : JournalReader)
      (run : Outcome ⊥ (List ScanRecord × JournalReader))
      → ((p : List ScanRecord × JournalReader) × (run ≡ ok p))
      → (p : List ScanRecord × JournalReader) × (scan_rest found r run ≡ ok p)
  rest_total none r run h = (([], r), refl)
  rest_total (some rec) r run ((records, r'), e) = ((rec ∷ records, r'), rw e refl)

  scan_total :
      (fuel : ℕ) (r : JournalReader)
      → (p : List ScanRecord × JournalReader) × (scan xxh3_64 fuel r ≡ ok p)
  unfolding scan
  scan_total zero r = (([], r), refl)
  scan_total (suc fuel) r =
      let ((found, r1), e) = next_total r in
      let (p, rest) = rest_total found r1 (scan xxh3_64 fuel r1) (scan_total fuel r1) in
      (p, rw e rest)

  -- The scan of a file, sound or corrupt, on one step more than its bytes comes to a stop. The records that
  -- it reads have heights that go up by one from the expected one to before the one expected after them,
  -- and they end within the part of the file that it took. The file cut off at the end of that part scans
  -- to the same records, end and height, and that scan ends at the end of the file.
  pub scan_stops :
      (r : JournalReader)
      → r.done ≡ false
      → r.remaining ≡ length r.reader
      → (records : List ScanRecord) × (r' : JournalReader) × (r'' : JournalReader) × (size : ℕ)
        × (scan xxh3_64 (suc r.remaining) r ≡ ok (records, r'))
        × (r'.done ≡ true)
        × ((stop : ScanStop) × (r'.stop ≡ some stop))
        × (size ≤ r.remaining)
        × (r'.consumed ≡ r.consumed + size)
        × All (λ rec. (r.consumed < rec.end_offset) × (rec.end_offset ≤ r'.consumed)) records
        × IsRise r.expected_block records r'.expected_block
        × (scan xxh3_64 (suc r.remaining) (cut xxh3_64 size r) ≡ ok (records, r''))
        × (r''.consumed ≡ r'.consumed)
        × (r''.expected_block ≡ r'.expected_block)
        × (r''.stop ≡ some eof)
  scan_stops r going room =
      let ((records, r'), e) = scan_total (suc r.remaining) r in
      let s = scan-Scanned xxh3_64 (suc r.remaining) r r' records going room e in
      let (done, kind, stop) = s.stopped (omega arith) in
      let (r'', again, consumed, expected, at_eof) = s.again (omega arith) in
      (
        records,
        r',
        r'',
        s.size,
        e,
        done,
        (kind, stop),
        s.within,
        s.consumed,
        s.ends,
        s.heights,
        again,
        consumed,
        expected,
        at_eof,
      )
