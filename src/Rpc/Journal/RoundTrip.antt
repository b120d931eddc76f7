-- ===== src/Rpc/Journal/RoundTrip.antt =====
-- A journal from its creation to the scan of a restart.
use private_eth_getbalance_w.Prelude.{
  ℕ, suc, ◌+◌, ◌-◌, ◌%◌, ◌^◌, ◌≤◌, ◌<◌, ◌≡◌, refl, ◌∙◌, ap, arith, List, [], ◌∷◌, ◌++◌, not, true,
  false, none, some, ok, length, ltb, ◌==◌, length-append, All,
}
use private_eth_getbalance_w.Proto.Codec.{to_le_bytes}
use private_eth_getbalance_w.Proto.Codec.RoundTrip.{
  from_le_bytes-to_le_bytes, length-to_le_bytes, frame,
}
use private_eth_getbalance_w.Rpc.Journal.{
  JournalReader, JournalWriter, eof, io, journal_magic, header_len, valid_end_offset,
  last_valid_height, open_reader, scan, create, record_bytes,
}
use private_eth_getbalance_w.Rpc.Journal.Record.{
  take_bytes-append, append_assoc, length-record_bytes,
}
use private_eth_getbalance_w.Rpc.Journal.Replay.{
  Entries, IsEntry, IsBefore, append_all, append_all_lem, append_all_last, bytes_of, records_of,
  scan_entries,
}

module _ (xxh3_64 : List ℕ → ℕ) (hash : (bytes : List ℕ) → xxh3_64 bytes < 256 ^ 8) where
  abbrev header_hash : ℕ → ℕ → ℕ
  header_hash base_digest base_block =
      xxh3_64 (journal_magic ++ (to_le_bytes 8 base_digest ++ to_le_bytes 8 base_block))

  -- The reader of a file that starts with a header.
  abbrev pub opened : ℕ → ℕ → ℕ → List ℕ → ℕ → JournalReader
  opened base_block plaintext_bits arity tail total_len = record {
    reader = tail;
    plaintext_bits = plaintext_bits;
    arity = arity;
    remaining = total_len - header_len;
    consumed = header_len;
    expected_block = (base_block + 1) % 2 ^ 64;
    done = false;
    stop = none;
  }

  created_file :
      (base_digest base_block bits : ℕ) (tail : List ℕ)
      → (create xxh3_64 base_digest base_block bits).file ++ tail
        ≡ journal_magic
          ++ (to_le_bytes 8 base_digest
              ++ (to_le_bytes 8 base_block
                  ++ (to_le_bytes 8 (header_hash base_digest base_block) ++ tail)))
  unfolding create
  created_file base_digest base_block bits tail =
      let stored = to_le_bytes 8 (header_hash base_digest base_block) in
      let digest = to_le_bytes 8 base_digest in
      let block = to_le_bytes 8 base_block in
      append_assoc (journal_magic ++ (digest ++ block)) stored tail
      ∙ append_assoc journal_magic (digest ++ block) (stored ++ tail)
      ∙ ap (λ l. journal_magic ++ l) (append_assoc digest block (stored ++ tail))

  length-created :
      (base_digest base_block bits : ℕ)
      → length (create xxh3_64 base_digest base_block bits).file ≡ header_len
  unfolding create
  length-created base_digest base_block bits =
      let digest = to_le_bytes 8 base_digest in
      let block = to_le_bytes 8 base_block in
      omega (
        arith,
        length-append (journal_magic ++ (digest ++ block))
            (to_le_bytes 8 (header_hash base_digest base_block)),
        length-append journal_magic (digest ++ block),
        length-append digest block,
        length-to_le_bytes 8 base_digest,
        length-to_le_bytes 8 base_block,
        length-to_le_bytes 8 (header_hash base_digest base_block),
      )

  open-create :
      (base_digest base_block bits arity total_len : ℕ) (tail : List ℕ)
      → base_digest < 256 ^ 8
      → base_block < 256 ^ 8
      → header_len ≤ total_len
      → open_reader xxh3_64
          ((create xxh3_64 base_digest base_block bits).file ++ tail)
          total_len
          bits
          arity
        ≡ ok (
          record { base_digest = base_digest; base_block = base_block },
          opened base_block bits arity tail total_len,
        )
  unfolding open_reader
  open-create base_digest base_block bits arity total_len tail h k room =
      let long : not (ltb total_len header_len) ≡ true = ground arith in
      let value = header_hash base_digest base_block in
      let stored = to_le_bytes 8 value in
      let digest = to_le_bytes 8 base_digest in
      let block = to_le_bytes 8 base_block in
      let same : (value == value) ≡ true = ground arith in
      rw
        (
          long,
          created_file base_digest base_block bits tail,
          take_bytes-append io 5 journal_magic (digest ++ (block ++ (stored ++ tail))) refl,
          take_bytes-append io 8 digest (block ++ (stored ++ tail))
              (length-to_le_bytes 8 base_digest),
          take_bytes-append io 8 block (stored ++ tail) (length-to_le_bytes 8 base_block),
          take_bytes-append io 8 stored tail (length-to_le_bytes 8 value),
          from_le_bytes-to_le_bytes 8 value
              (hash (journal_magic ++ (to_le_bytes 8 base_digest ++ to_le_bytes 8 base_block))),
          from_le_bytes-to_le_bytes 8 base_digest h,
          from_le_bytes-to_le_bytes 8 base_block k,
          same,
        )
        refl

  entries_below :
      (bits arity : ℕ) (entries : Entries)
      → length entries ≤ length (bytes_of xxh3_64 bits arity entries)
  entries_below bits arity [] = omega arith
  entries_below bits arity ((d, n) ∷ entries) = omega (
    arith,
    entries_below bits arity entries,
    length-append (record_bytes xxh3_64 (frame d) n) (bytes_of xxh3_64 bits arity entries),
    length-record_bytes xxh3_64 (frame d) n,
  )

  -- A journal that is created and then appended to, every append a success and every delta of the
  -- deployment's format and no longer than a record may be, opens with the digest and the block that it was
  -- created with, and a scan of it reads the appended deltas in order, each with rows and offsets in
  -- ascending order and with its number of items. The scan ends at the end of the file, and its last valid
  -- height is the last one that was written. The hash is of 64 bits.
  pub scan-append_all :
      (base_digest base_block bits arity : ℕ) (entries : Entries) (w : JournalWriter)
      → base_digest < 256 ^ 8
      → base_block < 256 ^ 8
      → All (IsEntry xxh3_64 bits arity) entries
      → append_all xxh3_64 bits arity entries (create xxh3_64 base_digest base_block bits) ≡ ok w
      → (r : JournalReader) × (r' : JournalReader) × (open_reader xxh3_64 w.file
            (length w.file)
            bits
            arity
          ≡ ok (record { base_digest = base_digest; base_block = base_block }, r))
        × (scan xxh3_64 (suc r.remaining) r
            ≡ ok (records_of xxh3_64 bits arity header_len entries, r'))
        × (r'.stop ≡ some eof)
        × (valid_end_offset r' ≡ length w.file)
        × (last_valid_height r' ≡ w.last)
  unfolding create
  scan-append_all base_digest base_block bits arity entries w digest block h e =
      let start = create xxh3_64 base_digest base_block bits in
      let bytes = bytes_of xxh3_64 bits arity entries in
      let (file, heights) = append_all_lem xxh3_64 bits arity entries start w h e in
      let (small, last) =
        append_all_last xxh3_64 bits arity entries start w h e (omega (arith, block)) in
      let size : length w.file ≡ header_len + length bytes =
        ap length file
        ∙ length-append start.file bytes
        ∙ ap (λ n. n + length bytes) (length-created base_digest base_block bits) in
      let r = opened base_block bits arity bytes (length w.file) in
      let before : IsBefore xxh3_64 bits arity r entries = record {
        reader = refl;
        remaining = omega (arith, size);
        done = refl;
        bits = refl;
        segments = refl;
        heights = heights;
      } in
      let (r', scanned, stop, consumed, at) =
        scan_entries xxh3_64 bits arity (suc r.remaining) entries r hash h before
          (omega (arith, size, entries_below bits arity entries)) in
      (
        r,
        r',
        ap (λ l. open_reader xxh3_64 l (length w.file) bits arity) file
            ∙ open-create base_digest base_block bits arity (length w.file) bytes digest block
                (omega (arith, size)),
        scanned,
        stop,
        omega (arith, size, consumed),
        omega (arith, small, at, last),
      )
