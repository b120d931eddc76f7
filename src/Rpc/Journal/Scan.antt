-- ===== src/Rpc/Journal/Scan.antt =====
-- A scan of any file, sound or corrupt: the heights it reads, where it ends, and what it reads again of
-- the file cut off there.
use private_eth_getbalance_w.Prelude.{
  ℕ, zero, suc, ◌+◌, ◌-◌, ◌%◌, ◌^◌, ◌≤◌, ◌<◌, ◌≡◌, refl, sym, subst, ◌∙◌, ap, arith, List, [], ◌∷◌,
  true, false, Option, none, some, Outcome, ok, err, panic, length, >>=-eq-ok, ◌>>=◌, ok-injective,
  All,
}
use private_eth_getbalance_w.Rpc.Journal.{
  JournalReader, ScanRecord, ScanStop, StopReason, eof, invalid, try_next, advance, next, scan_rest,
  scan,
}
use private_eth_getbalance_w.Rpc.Journal.Record.{next_open, at_end}
use private_eth_getbalance_w.Rpc.Journal.Recover.{cut, Stepped, try_next-Stepped}

-- The heights of the records go up by one, as u64s, from `expected` to before `after`.
abbrev pub IsRise : ℕ → List ScanRecord → ℕ → Type 0
IsRise expected [] after = after ≡ expected
IsRise expected (rec ∷ records) after =
    (rec.delta.block ≡ expected) × IsRise ((expected + 1) % 2 ^ 64) records after

module _ (xxh3_64 : List ℕ → ℕ) where
  -- A scan on `fuel` from r, its records, and the reader after it.
  pub record Scanned (fuel : ℕ) (r : JournalReader) (records : List ScanRecord) (r' : JournalReader)
      : Type 0 where
    pub size : ℕ
    pub consumed : r'.consumed ≡ r.consumed + size
    pub within : size ≤ r.remaining
    pub ends : All (λ rec. (r.consumed < rec.end_offset) × (rec.end_offset ≤ r'.consumed)) records
    pub heights : IsRise r.expected_block records r'.expected_block
    pub stopped : r.remaining < fuel → (r'.done ≡ true) × (stop : ScanStop) × (r'.stop ≡ some stop)
    pub again :
        (r.remaining < fuel
          → (r'' : JournalReader) × (scan xxh3_64 fuel (cut xxh3_64 size r) ≡ ok (records, r''))
            × (r''.consumed ≡ r'.consumed)
            × (r''.expected_block ≡ r'.expected_block)
            × (r''.stop ≡ some eof))

  -- A reader with nothing left ends its scan.
  scan-cut :
      (fuel : ℕ) (r : JournalReader)
      → r.done ≡ false
      → scan xxh3_64 (suc fuel) (cut xxh3_64 0 r)
        ≡ ok ([], record (cut xxh3_64 0 r) { done = true; stop = some eof })
  unfolding scan
  scan-cut fuel r going = rw (at_end xxh3_64 (cut xxh3_64 0 r) going refl) refl

  ended-Scanned :
      (fuel : ℕ) (r : JournalReader) (stop : ScanStop) (records : List ScanRecord)
      (r' : JournalReader)
      → r.done ≡ false
      → ◌≡◌ {A = Outcome ⊥ (List ScanRecord × JournalReader)}
          (ok ([], record r { done = true; stop = some stop }))
          (ok (records, r'))
      → Scanned (suc fuel) r records r'
  ended-Scanned fuel r stop records r' going e =
      let same : ([], record r { done = true; stop = some stop }) ≡ (records, r') =
        ok-injective _ (records, r') e in
      let none_read : [] ≡ records = ap (λ p. p.0) same in
      let at : record r { done = true; stop = some stop } ≡ r' = ap (λ p. p.1) same in
      rw (← none_read, ← at)
        (record {
          size = 0;
          consumed = omega arith;
          within = omega arith;
          ends = tt;
          heights = refl;
          stopped = λ h. (refl, stop, refl);
          again = λ h. (
            record (cut xxh3_64 0 r) { done = true; stop = some eof },
            scan-cut fuel r going,
            refl,
            refl,
            refl,
          );
        })

  ends_later :
      (a c : ℕ) (end : ℕ) (records : List ScanRecord)
      → a ≤ c
      → All (λ rec. (c < rec.end_offset) × (rec.end_offset ≤ end)) records
      → All (λ rec. (a < rec.end_offset) × (rec.end_offset ≤ end)) records
  ends_later a c end [] h all = tt
  ends_later a c end (rec ∷ records) h (here, all) =
      ((omega (arith, h, here.0), here.1), ends_later a c end records h all)

  -- The scan of a cut file, by its first record.
  scan_again :
      (fuel m : ℕ) (r r1 r'' : JournalReader) (rec : ScanRecord) (records : List ScanRecord)
      → r.done ≡ false
      → (s : Stepped xxh3_64 r rec r1) → scan xxh3_64 fuel (cut xxh3_64 m r1) ≡ ok (records, r'')
      → scan xxh3_64 (suc fuel) (cut xxh3_64 (s.size + m) r) ≡ ok (rec ∷ records, r'')
  unfolding scan
  scan_again fuel m r r1 r'' rec records going s rest =
      let left : s.size + m - s.size ≡ m = omega arith in
      let first : next xxh3_64 (cut xxh3_64 (s.size + m) r) ≡ ok (some rec, cut xxh3_64 m r1) =
        next_open xxh3_64 (cut xxh3_64 (s.size + m) r) going
        ∙ ap (advance xxh3_64 (cut xxh3_64 (s.size + m) r)) (s.again (s.size + m) (omega arith))
        ∙ ap (λ k. ok (some rec, cut xxh3_64 k r1)) left in
      rw (first, rest) refl

  stepped-Scanned :
      (fuel : ℕ) (r r1 r' : JournalReader) (rec : ScanRecord) (records : List ScanRecord)
      → r.done ≡ false
      → Stepped xxh3_64 r rec r1
      → Scanned fuel r1 records r'
      → Scanned (suc fuel) r (rec ∷ records) r'
  stepped-Scanned fuel r r1 r' rec records going s rest = record {
    size = s.size + rest.size;
    consumed = omega (arith, s.moved, rest.consumed);
    within = omega (arith, s.left, rest.within);
    ends = (
      (omega (arith, s.end, s.moved, s.some_bytes), omega (arith, s.end, rest.consumed)),
      ends_later r.consumed r1.consumed r'.consumed records (omega (arith, s.moved)) rest.ends,
    );
    heights = (s.height, subst (λ b. IsRise b records r'.expected_block) s.expected rest.heights);
    stopped = λ h. rest.stopped (omega (arith, h, s.left, s.some_bytes));
    again = λ h.
        let (r'', found, consumed, expected, stop) =
          rest.again (omega (arith, h, s.left, s.some_bytes)) in
        (
          r'',
          scan_again fuel rest.size r r1 r'' rec records going s found,
          consumed,
          expected,
          stop,
        );
  }

  scanned_by :
      (fuel : ℕ) (r : JournalReader)
      (found : Outcome (StopReason × ℕ) (Option (ScanRecord × JournalReader)))
      (records : List ScanRecord) (r' : JournalReader)
      → try_next xxh3_64 r ≡ found
      → (do (rec, r) ← advance xxh3_64 r found; scan_rest rec r (scan xxh3_64 fuel r))
        ≡ ok (records, r')
      → r.done ≡ false
      → r.remaining ≡ length r.reader
      → ((r1 : JournalReader) (rest : List ScanRecord) (r' : JournalReader)
          → r1.done ≡ false
          → r1.remaining ≡ length r1.reader
          → scan xxh3_64 fuel r1 ≡ ok (rest, r')
          → Scanned fuel r1 rest r')
      → Scanned (suc fuel) r records r'
  scanned_by fuel r (ok none) records r' at e going room later =
      ended-Scanned fuel r eof records r' going e
  scanned_by fuel r (err (reason, offset)) records r' at e going room later =
      ended-Scanned fuel r (invalid offset reason) records r' going e
  scanned_by fuel r panic records r' at e going room later = absurd (cc e)
  scanned_by fuel r (ok (some (rec, r1))) records r' at e going room later =
      let s = try_next-Stepped xxh3_64 r rec r1 at room in
      let ((rest, last), run, e) = >>=-eq-ok (scan xxh3_64 fuel r1) (λ p. ok (rec ∷ p.0, p.1)) e in
      let same : (rec ∷ rest, last) ≡ (records, r') = ok-injective _ (records, r') e in
      subst (λ p. Scanned (suc fuel) r p.0 p.1) same
        (stepped-Scanned fuel r r1 last rec rest going s
          (later r1 rest last (s.going ∙ going) s.whole run))

  -- What a scan of a file reads, whatever its bytes: records whose heights go up by one from the expected
  -- one, and which end one after the other within the file; its reader has consumed the file up to the end
  -- of the last of them and expects the height after it. On more fuel than there are bytes the scan comes
  -- to a stop, and the file cut off where it stopped scans to the same records, the same end and the same
  -- height, and to the end of the file.
  pub scan-Scanned :
      (fuel : ℕ) (r r' : JournalReader) (records : List ScanRecord)
      → r.done ≡ false
      → r.remaining ≡ length r.reader
      → scan xxh3_64 fuel r ≡ ok (records, r')
      → Scanned fuel r records r'
  unfolding scan
  scan-Scanned zero r r' records going room e =
      let same : ([], r) ≡ (records, r') = ok-injective _ (records, r') e in
      subst (λ p. Scanned 0 r p.0 p.1) same
        (record {
          size = 0;
          consumed = omega arith;
          within = omega arith;
          ends = tt;
          heights = refl;
          stopped = λ h. absurd (omega (arith, h));
          again = λ h. absurd (omega (arith, h));
        })
  scan-Scanned (suc fuel) r r' records going room e =
      scanned_by fuel r (try_next xxh3_64 r) records r' refl
        (ap (λ o. do (rec, r) ← o; scan_rest rec r (scan xxh3_64 fuel r))
            (sym (next_open xxh3_64 r going))
          ∙ e)
        going room (λ r1 rest r'. scan-Scanned fuel r1 r' rest)
