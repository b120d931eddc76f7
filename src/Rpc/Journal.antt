-- ===== src/Rpc/Journal.antt =====
-- crates/risepir-rpc/src/journal.rs: the file of the block deltas since a state was saved. A file is
-- the list of its bytes, read from a position on; `xxh3_64`, the hash of the bytes that a streaming
-- hasher was given, is third-party code and a parameter. Reads and writes of a file that is there
-- succeed; one past its end is an error. A message is what it is formatted from.
pub mod Record
pub mod Replay
pub mod RoundTrip
pub mod Take
pub mod Recover
pub mod Scan
pub mod Total
mod Tests
use private_eth_getbalance_w.Prelude.{
  ℕ, zero, suc, ◌+◌, ◌-◌, ◌*◌, ◌%◌, ◌^◌, List, [], ◌∷◌, ◌++◌, Bool, true, false, not, ◌||◌, Option,
  none, some,
}
use private_eth_getbalance_w.Prelude.{
  Outcome, ok, err, panic, ◌>>=◌, ◌>>◌, guard, length, take, drop, replicate, or_panic, leb, ltb,
  ◌==◌, if◌then◌else◌,
}
use private_eth_getbalance_w.Proto.Varint.{CodecError}
use private_eth_getbalance_w.Proto.Delta.{BlockDelta}
use private_eth_getbalance_w.Proto.Codec.{
  to_le_bytes, from_le_bytes, bytes_eqb, encode_block_delta, decode_block_delta,
}

-- `b"RPJL1"`
abbrev pub journal_magic : List ℕ
journal_magic = 0x52 ∷ 0x50 ∷ 0x4a ∷ 0x4c ∷ 0x31 ∷ []

abbrev pub header_len : ℕ
header_len = 5 + 8 + 8 + 8

abbrev pub max_record_bytes : ℕ
max_record_bytes = 64 * 1024 * 1024

pub data JournalError : Type 0 where
  io : JournalError
  too_short : ℕ → JournalError
  bad_magic : JournalError
  header_checksum_mismatch : JournalError
  gap : ℕ → ℕ → JournalError
  payload_too_long : ℕ → JournalError

-- Why a scan stopped short.
pub data StopReason : Type 0 where
  torn_length : StopReason
  read_error : StopReason
  length_out_of_bounds : ℕ → StopReason
  exceeds_remaining : ℕ → ℕ → StopReason
  checksum_mismatch : StopReason
  payload_rejected : CodecError → StopReason
  height_gap : ℕ → ℕ → StopReason

pub data ScanStop : Type 0 where
  eof : ScanStop
  invalid : ℕ → StopReason → ScanStop

pub record JournalHeader : Type 0 where
  pub base_digest : ℕ
  pub base_block : ℕ

pub record ScanRecord : Type 0 where
  pub delta : BlockDelta
  pub num_items_after : ℕ
  pub end_offset : ℕ

pub record JournalReader : Type 0 where
  pub reader : List ℕ
  pub plaintext_bits : ℕ
  pub arity : ℕ
  pub remaining : ℕ
  pub consumed : ℕ
  pub expected_block : ℕ
  pub done : Bool
  pub stop : Option ScanStop

pub record JournalReportOnly : Type 0 where
  pub count : ℕ
  pub end_height : ℕ
  pub end_offset : ℕ
  pub stop : ScanStop

-- The open file of a writer by its contents, which every write goes to the end of.
pub record JournalWriter : Type 0 where
  pub file : List ℕ
  pub plaintext_bits : ℕ
  pub last : ℕ

-- `read_exact` of `n` bytes, with the error of a file that ends before them.
unfoldable pub take_bytes : {E : Type 0} → E → ℕ → List ℕ → Outcome E (List ℕ × List ℕ)
take_bytes e n bytes = if ltb (length bytes) n then err e else ok (take n bytes, drop n bytes)

abbrev pub map_codec_error : {A : Type 0} → ℕ → Outcome CodecError A → Outcome (StopReason × ℕ) A
map_codec_error consumed (ok a) = ok a
map_codec_error consumed (err e) = err (payload_rejected e, consumed)
map_codec_error consumed panic = panic

-- `valid_end_offset`, `last_valid_height` and `stop`.
abbrev pub valid_end_offset : JournalReader → ℕ
valid_end_offset r = r.consumed

abbrev pub last_valid_height : JournalReader → ℕ
last_valid_height r = (r.expected_block + 2 ^ 64 - 1) % 2 ^ 64

-- The rest of a scan after one call of `next`.
abbrev pub scan_rest :
    Option ScanRecord
    → JournalReader
    → Outcome ⊥ (List ScanRecord × JournalReader)
    → Outcome ⊥ (List ScanRecord × JournalReader)
scan_rest none r rest = ok ([], r)
scan_rest (some rec) r rest = do (records, r) ← rest; ok (rec ∷ records, r)

-- `encode_block_delta`, whose panic is a panic here.
abbrev pub encoded_payload : Outcome ⊥ (List ℕ) → Outcome JournalError (List ℕ)
encoded_payload (ok bytes) = ok bytes
encoded_payload (err e) = absurd e
encoded_payload panic = panic

-- `set_len`, which fills up with zeros.
abbrev pub set_len : ℕ → List ℕ → List ℕ
set_len n file = take n file ++ replicate (n - length file) 0

-- `adopt`
abbrev pub adopt : List ℕ → ℕ → ℕ → ℕ → JournalWriter
adopt file plaintext_bits valid_end_offset last_valid_height = record {
  file = set_len valid_end_offset file;
  plaintext_bits = plaintext_bits;
  last = last_valid_height;
}

module _ (xxh3_64 : List ℕ → ℕ) where
  unfoldable pub open_reader :
      List ℕ → ℕ → ℕ → ℕ → Outcome JournalError (JournalHeader × JournalReader)
  open_reader reader total_len plaintext_bits arity = do
    guard (not (ltb total_len header_len)) (too_short total_len)
    (magic_bytes, reader) ← take_bytes io 5 reader
    guard (bytes_eqb magic_bytes journal_magic) bad_magic
    (bd_bytes, reader) ← take_bytes io 8 reader
    (bb_bytes, reader) ← take_bytes io 8 reader
    (stored_bytes, reader) ← take_bytes io 8 reader
    guard (xxh3_64 (magic_bytes ++ (bd_bytes ++ bb_bytes)) == from_le_bytes stored_bytes)
        header_checksum_mismatch
    ok (
      record { base_digest = from_le_bytes bd_bytes; base_block = from_le_bytes bb_bytes },
      record {
        reader = reader;
        plaintext_bits = plaintext_bits;
        arity = arity;
        remaining = total_len - header_len;
        consumed = header_len;
        expected_block = (from_le_bytes bb_bytes + 1) % 2 ^ 64;
        done = false;
        stop = none;
      },
    )

  -- The part of `try_next` after the length prefix, with `remaining` and `reader` past it.
  unfoldable pub read_record :
      JournalReader → ℕ → ℕ → List ℕ → Outcome (StopReason × ℕ) (ScanRecord × JournalReader)
  read_record r len remaining bytes = do
    guard (not (len == 0 || ltb max_record_bytes len)) (length_out_of_bounds len, r.consumed)
    guard (leb (8 + len + 8) remaining) (exceeds_remaining len remaining, r.consumed)
    (n_bytes, bytes) ← take_bytes (read_error, r.consumed) 8 bytes
    (payload, bytes) ← take_bytes (read_error, r.consumed) len bytes
    (xxh_bytes, bytes) ← take_bytes (read_error, r.consumed) 8 bytes
    guard (xxh3_64 (n_bytes ++ payload) == from_le_bytes xxh_bytes) (checksum_mismatch, r.consumed)
    delta ← map_codec_error r.consumed (decode_block_delta payload r.plaintext_bits r.arity)
    guard (delta.block == r.expected_block) (height_gap r.expected_block delta.block, r.consumed)
    let consumed = r.consumed + (4 + 8 + len + 8)
    ok (
      record { delta = delta; num_items_after = from_le_bytes n_bytes; end_offset = consumed },
      record r {
        reader = bytes;
        remaining = remaining - 8 - len - 8;
        consumed = consumed;
        expected_block = (r.expected_block + 1) % 2 ^ 64;
      },
    )

  -- Of a reader that stopped with an error only `consumed`, `expected_block` and the stop are looked at
  -- again, and an error leaves them, so it carries no reader.
  unfoldable pub try_next :
      JournalReader → Outcome (StopReason × ℕ) (Option (ScanRecord × JournalReader))
  try_next r =
      if r.remaining == 0
      then ok none
      else if ltb r.remaining 4
      then err (torn_length, r.consumed)
      else do
        (len_bytes, bytes) ← take_bytes (read_error, r.consumed) 4 r.reader
        found ← read_record r (from_le_bytes len_bytes) (r.remaining - 4) bytes
        ok (some found)

  abbrev pub advance :
      JournalReader
      → Outcome (StopReason × ℕ) (Option (ScanRecord × JournalReader))
      → Outcome ⊥ (Option ScanRecord × JournalReader)
  advance r (ok (some (rec, r'))) = ok (some rec, r')
  advance r (ok none) = ok (none, record r { done = true; stop = some eof })
  advance r (err (reason, offset)) =
      ok (none, record r { done = true; stop = some (invalid offset reason) })
  advance r panic = panic

  -- `Iterator::next`
  unfoldable pub next : JournalReader → Outcome ⊥ (Option ScanRecord × JournalReader)
  next r = if r.done then ok (none, r) else advance r (try_next r)

  -- The iterator run to its end, on fuel: its records and the reader after it.
  unfoldable pub scan : ℕ → JournalReader → Outcome ⊥ (List ScanRecord × JournalReader)
  scan zero r = ok ([], r)
  scan (suc fuel) r = do (found, r) ← next r; scan_rest found r (scan fuel r)

  -- `expect` on the stop panics where there is none.
  unfoldable pub report : JournalReader → Outcome ⊥ (Option JournalReportOnly)
  report r = do
    (records, r) ← scan (suc r.remaining) r
    stop ← or_panic r.stop
    ok (
        some (record {
          count = length records % 2 ^ 64;
          end_height = last_valid_height r;
          end_offset = valid_end_offset r;
          stop = stop;
        }))

  abbrev pub report_opened :
      ℕ
      → Outcome JournalError (JournalHeader × JournalReader)
      → Outcome ⊥ (Option JournalReportOnly)
  report_opened base_digest (err e) = ok none
  report_opened base_digest panic = panic
  report_opened base_digest (ok (header, r)) =
      if not (header.base_digest == base_digest) then ok none else report r

  -- A file that is not there has no report.
  unfoldable pub scan_report_only :
      Option (List ℕ) → ℕ → ℕ → ℕ → Outcome ⊥ (Option JournalReportOnly)
  scan_report_only none base_digest plaintext_bits arity = ok none
  scan_report_only (some file) base_digest plaintext_bits arity =
      report_opened base_digest (open_reader file (length file) plaintext_bits arity)

  unfoldable pub create : ℕ → ℕ → ℕ → JournalWriter
  create base_digest base_block plaintext_bits =
      let header = journal_magic ++ (to_le_bytes 8 base_digest ++ to_le_bytes 8 base_block) in
      record {
        file = header ++ to_le_bytes 8 (xxh3_64 header);
        plaintext_bits = plaintext_bits;
        last = base_block;
      }

  -- The bytes of one record.
  unfoldable pub record_bytes : List ℕ → ℕ → List ℕ
  record_bytes payload num_items_after =
      let n_bytes = to_le_bytes 8 num_items_after in
      to_le_bytes 4 (length payload)
      ++ (n_bytes ++ (payload ++ to_le_bytes 8 (xxh3_64 (n_bytes ++ payload))))

  unfoldable pub append : BlockDelta → ℕ → JournalWriter → Outcome JournalError JournalWriter
  append delta num_items_after w = do
    let expected = (w.last + 1) % 2 ^ 64
    guard (delta.block == expected) (gap expected delta.block)
    payload ← encoded_payload (encode_block_delta delta)
    guard (ltb (length payload) (2 ^ 32)) (payload_too_long (length payload))
    ok (record w { file = w.file ++ record_bytes payload num_items_after; last = delta.block })
