-- ===== src/Rpc/Journal/Tests.antt =====
-- Runs of the journal, and its theorems at concrete inputs.
use private_eth_getbalance_w.Prelude.{
  ℕ, suc, ◌+◌, ◌%◌, ◌^◌, ◌≤◌, ◌<◌, ◌≡◌, refl, arith, List, [], ◌∷◌, ◌++◌, true, false, none, some,
  ok, err, length, All,
}
use private_eth_getbalance_w.Prelude.Int.{pos, negsuc}
use private_eth_getbalance_w.Proto.Delta.{BlockDelta}
use private_eth_getbalance_w.Rpc.Journal.{
  JournalReader, JournalWriter, ScanRecord, ScanStop, eof, header_len, valid_end_offset,
  last_valid_height, open_reader, scan, create, append, gap, invalid, exceeds_remaining,
  record_bytes, scan_report_only, report, next, try_next, read_record, take_bytes,
}
use private_eth_getbalance_w.Proto.Codec.{
  encode_block_delta, write_segments, write_rows, write_cells, sort_by_key, insert_sorted,
  to_le_bytes, decode_block_delta, read_segments, read_rows, read_cells, next_index, from_le_bytes,
}
use private_eth_getbalance_w.Proto.Codec.Write.{segment_bytes, row_bytes, cell_bytes}
use private_eth_getbalance_w.Proto.Codec.RoundTrip.{frame}
use private_eth_getbalance_w.Proto.Varint.{
  write_uvarint, zigzag_encode, read_uvarint, zigzag_decode, check_count,
}
use private_eth_getbalance_w.Rpc.Journal.Recover.{cut}
use private_eth_getbalance_w.Rpc.Journal.Scan.{IsRise}
use private_eth_getbalance_w.Rpc.Journal.Total.{scan_stops}
use private_eth_getbalance_w.Rpc.Journal.Replay.{IsEntry, Entries, append_all, records_of, bytes_of}
use private_eth_getbalance_w.Rpc.Journal.RoundTrip.{scan-append_all}

-- A stand-in for the hash of the bytes.
abbrev toy_hash : List ℕ → ℕ
toy_hash bytes = (1000 + length bytes) % 256 ^ 8

toy_hash_small : (bytes : List ℕ) → toy_hash bytes < 256 ^ 8
toy_hash_small bytes = omega arith

abbrev delta_of : ℕ → BlockDelta
delta_of block = record {
  block = block;
  per_segment = ((3, (1, pos 5) ∷ (0, negsuc 0) ∷ []) ∷ []) ∷ [] ∷ [];
}

abbrev two : Entries
two = (delta_of 101, 7) ∷ (delta_of 102, 8) ∷ []

abbrev start : JournalWriter
start = create toy_hash 0xaaaa 100 8

abbrev written : JournalWriter
written = record { file = start.file ++ bytes_of toy_hash 8 2 two; plaintext_bits = 8; last = 102 }

append_two : append_all toy_hash 8 2 two start ≡ ok written
unfolding append_all append create record_bytes encode_block_delta write_uvarint zigzag_encode
    write_segments write_rows write_cells sort_by_key insert_sorted to_le_bytes segment_bytes
    row_bytes cell_bytes
append_two = refl

length-frame : (block : ℕ) → length (frame (delta_of block)) ≡ 21
unfolding segment_bytes row_bytes cell_bytes sort_by_key insert_sorted zigzag_encode write_uvarint
    to_le_bytes
length-frame block = refl

delta-IsEntry :
    (block n : ℕ) → block < 2 ^ 64 → n < 256 ^ 8 → IsEntry toy_hash 8 2 (delta_of block, n)
delta-IsEntry block n h k = record {
  encodable = record {
    bits = (omega arith, omega arith);
    block = h;
    arity = omega arith;
    segments = (
      (
        omega arith,
        (
          (
            omega arith,
            omega arith,
            ((omega arith, omega arith), ((omega arith, omega arith), tt)),
          ),
          tt,
        ),
      ),
      ((omega arith, tt), tt),
    );
  };
  segments = refl;
  short = omega (arith, length-frame block);
  items = k;
}

two-IsEntry : All (IsEntry toy_hash 8 2) two
two-IsEntry = (
  delta-IsEntry 101 7 (omega arith) (omega arith),
  (delta-IsEntry 102 8 (omega arith) (omega arith), tt),
)

scan-append_all_example :
    (r : JournalReader) × (r' : JournalReader) × (open_reader toy_hash written.file
        (length written.file)
        8
        2
      ≡ ok (record { base_digest = 0xaaaa; base_block = 100 }, r))
    × (scan toy_hash (suc r.remaining) r ≡ ok (records_of toy_hash 8 2 header_len two, r'))
    × (r'.stop ≡ some eof)
    × (valid_end_offset r' ≡ length written.file)
    × (last_valid_height r' ≡ 102)
scan-append_all_example =
    scan-append_all toy_hash toy_hash_small 0xaaaa 100 8 2 two written (omega arith) (omega arith)
      two-IsEntry append_two

-- A gap is refused.
append_gap : append toy_hash (delta_of 104) 9 written ≡ err (gap 103 104)
unfolding append
append_gap = refl

-- A reader past the header of a journal whose last write was torn.
abbrev torn : JournalReader
torn = record {
  reader = bytes_of toy_hash 8 2 two ++ (21 ∷ 0 ∷ 0 ∷ 0 ∷ 9 ∷ []);
  plaintext_bits = 8;
  arity = 2;
  remaining = length (bytes_of toy_hash 8 2 two ++ (21 ∷ 0 ∷ 0 ∷ 0 ∷ 9 ∷ []));
  consumed = header_len;
  expected_block = 101;
  done = false;
  stop = none;
}

scan_stops_example :
    (records : List ScanRecord) × (r' : JournalReader) × (r'' : JournalReader) × (size : ℕ) × (scan
        toy_hash
        (suc torn.remaining)
        torn
      ≡ ok (records, r'))
    × (r'.done ≡ true)
    × ((stop : ScanStop) × (r'.stop ≡ some stop))
    × (size ≤ torn.remaining)
    × (r'.consumed ≡ header_len + size)
    × All (λ rec. (header_len < rec.end_offset) × (rec.end_offset ≤ r'.consumed)) records
    × IsRise 101 records r'.expected_block
    × (scan toy_hash (suc torn.remaining) (cut toy_hash size torn) ≡ ok (records, r''))
    × (r''.consumed ≡ r'.consumed)
    × (r''.expected_block ≡ r'.expected_block)
    × (r''.stop ≡ some eof)
scan_stops_example = scan_stops toy_hash torn refl refl

scan_torn :
    scan_report_only toy_hash (some (start.file ++ torn.reader)) 0xaaaa 8 2
    ≡ ok (
        some (record {
          count = 2;
          end_height = 102;
          end_offset = 111;
          stop = invalid 111 (exceeds_remaining 21 1);
        }))
unfolding scan_report_only report open_reader scan next try_next read_record take_bytes create
    record_bytes to_le_bytes segment_bytes row_bytes cell_bytes sort_by_key insert_sorted
    write_uvarint zigzag_encode decode_block_delta read_uvarint zigzag_decode check_count
    read_segments read_rows read_cells next_index from_le_bytes
scan_torn = refl
