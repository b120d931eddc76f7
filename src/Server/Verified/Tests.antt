-- ===== src/Server/Verified/Tests.antt =====
-- Runs of the scan of the candidate slots, and its theorems at concrete inputs.
use private_eth_getbalance_w.Prelude.{
  ℕ, ◌+◌, ◌*◌, ◌%◌, ◌^◌, ◌≡◌, refl, arith, List, [], ◌∷◌, All, length, ok, if◌then◌else◌, ◌==◌,
  false,
}
use private_eth_getbalance_w.Prelude.{Option, some, none}
use private_eth_getbalance_w.Server.Verified.Get.{Holds, get_sound}
use private_eth_getbalance_w.Proto.Delta.{AddressHash, Balance}
use private_eth_getbalance_w.Proto.Codec.{to_le_bytes}
use private_eth_getbalance_w.Proto.Value.{
  ValueCodec, found, decode, extract_key_tag, key_tag, judge, check_widths, checksum, fnv1a64,
  slice_to, read_bits, read_bits_loop, read_bit,
}
use private_eth_getbalance_w.Server.Verified.{
  Store, own, absent, get, get_located, reread, reread_buckets, reread_bucket, reread_slot, locate,
  scan_buckets, scan_bucket, scan_slot, tagged_slot,
}
use private_eth_getbalance_w.Server.Verified.Found.{probes, slots_from, IsSplit, IsForeign}
use private_eth_getbalance_w.Prelude.{panic, ◌≢◌}
use private_eth_getbalance_w.Proto.Value.Decode.{IsRepresentable}
use private_eth_getbalance_w.Proto.Value.Total.{IsSlot}
use private_eth_getbalance_w.Server.Verified.Panics.{locate-ne-panic}
use private_eth_getbalance_w.Server.Verified.Locate.{key_slots, locate_own, locate_absent}

-- A stand-in for the hash of the addresses.
abbrev toy_hash : AddressHash → ℕ → ℕ
toy_hash addr seed = (addr * 2654435761 + seed) % 2 ^ 64

abbrev narrow : ValueCodec
narrow = record { key_tag_bits = 5; balance_bits = 9; checksum_bits = 4 }

-- A balance of 300 for the address 7.
abbrev value_bytes : List ℕ
value_bytes = 0x9e ∷ 0xa5 ∷ 0x03 ∷ []

-- Two buckets of two slots. The second slot of bucket 1 has the fingerprint `fp`.
abbrev store_with : ℕ → Store
store_with fp = record {
  arity = 2;
  bucket_size = 2;
  candidate_buckets = λ key. (9, 0 ∷ 1 ∷ 2 ∷ []);
  slot_at = λ bucket slot. ((if bucket == 1 then if slot == 1 then fp else 0 else 0), value_bytes);
}

locate_7 : locate toy_hash narrow 7 (store_with 9) ≡ ok (own 300)
unfolding locate scan_buckets scan_bucket scan_slot tagged_slot extract_key_tag key_tag decode judge
    check_widths checksum fnv1a64 slice_to read_bits read_bits_loop read_bit to_le_bytes
locate_7 = refl

locate_other : locate toy_hash narrow 7 (store_with 4) ≡ ok (absent 0)
unfolding locate scan_buckets scan_bucket scan_slot
locate_other = refl

four_slots : (fp : ℕ) → length (key_slots toy_hash narrow 7 (store_with fp)) ≡ 4
unfolding probes slots_from
four_slots fp = refl

locate_own_example :
    IsSplit toy_hash narrow 7 9 (key_slots toy_hash narrow 7 (store_with 9)) (found 300) false
locate_own_example =
    locate_own toy_hash narrow 7 (store_with 9) 300 (omega (arith, four_slots 9)) locate_7

locate_absent_example :
    All (IsForeign toy_hash narrow 7 9) (key_slots toy_hash narrow 7 (store_with 4))
locate_absent_example =
    locate_absent toy_hash narrow 7 (store_with 4) 0 (omega (arith, four_slots 4)) locate_other

slots-IsSlot :
    (fp : ℕ) → All (λ slot. IsSlot narrow slot.1) (key_slots toy_hash narrow 7 (store_with fp))
unfolding probes slots_from
slots-IsSlot fp = (one, (one, (one, (one, tt))))
  where
    one : IsSlot narrow value_bytes
    one = record { all = (omega arith, (omega arith, (omega arith, tt))); size = refl }

narrow-IsRepresentable : IsRepresentable narrow
narrow-IsRepresentable = record { tag = omega arith; balance = omega arith; sum = omega arith }

locate-ne-panic_example : locate toy_hash narrow 7 (store_with 9) ≢ panic
locate-ne-panic_example =
    locate-ne-panic toy_hash narrow 7 narrow-IsRepresentable (store_with 9) (slots-IsSlot 9)

abbrev read_300 : Option Balance
read_300 = some 300

get_7 : get toy_hash narrow 7 (store_with 9) ≡ ok (some 300)
unfolding get get_located locate scan_buckets scan_bucket scan_slot tagged_slot extract_key_tag
    key_tag decode judge check_widths checksum fnv1a64 slice_to read_bits read_bits_loop read_bit
    to_le_bytes
get_7 = refl

get_sound_example :
    ((b : Balance)
      → read_300 ≡ some b
      → Holds toy_hash narrow 7 9 (key_slots toy_hash narrow 7 (store_with 9)) b)
    × (read_300 ≡ none
        → All (IsForeign toy_hash narrow 7 9) (key_slots toy_hash narrow 7 (store_with 9)))
get_sound_example =
    get_sound toy_hash narrow 7 (store_with 9) read_300 (omega (arith, four_slots 9)) get_7

-- Both slots of bucket 1 have the fingerprint, the first with another key's value: the key's own entry
-- is shadowed, and `get` finds it in its second scan.
abbrev shadowed_store : Store
shadowed_store = record (store_with 9) {
  slot_at = λ bucket slot.
      ((if bucket == 1 then 9 else 0), (if slot == 1 then value_bytes else 0 ∷ 0 ∷ 0 ∷ []));
}

get_shadowed : get toy_hash narrow 7 shadowed_store ≡ ok (some 300)
unfolding get get_located reread reread_buckets reread_bucket reread_slot locate scan_buckets
    scan_bucket scan_slot tagged_slot extract_key_tag key_tag decode judge check_widths checksum
    fnv1a64 slice_to read_bits read_bits_loop read_bit to_le_bytes
get_shadowed = refl
