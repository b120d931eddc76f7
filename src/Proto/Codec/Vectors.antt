-- ===== src/Proto/Codec/Vectors.antt =====
-- A vector of u32s decodes to itself, and what decodes is no longer than the caller allows.
use private_eth_getbalance_w.Prelude.{
  ℕ, zero, suc, ◌+◌, ◌*◌, ◌/◌, ◌^◌, ◌≤◌, ◌<◌, ◌≡◌, refl, sym, ◌∙◌, ap, arith, List, [], ◌∷◌, ◌++◌,
  length, length-append, All,
}
use private_eth_getbalance_w.Prelude.{
  ok, >>=-eq-ok, ok_first, ok-injective, guard, guard-true, leb→le, leb, true,
}
use private_eth_getbalance_w.Proto.Varint.{
  write_uvarint, read_uvarint, uvarint_len, count_exceeds_input,
}
use private_eth_getbalance_w.Proto.Varint.Write.{uvarint_len-write_uvarint}
use private_eth_getbalance_w.Proto.Varint.RoundTrip.{read_uvarint-write_uvarint}
use private_eth_getbalance_w.Proto.Codec.{
  to_le_bytes, from_le_bytes, read_exact, write_u32s, encode_u32s, read_u32_loop, read_u32s,
  decode_u32s, end_of_input,
}
use private_eth_getbalance_w.Proto.Codec.RoundTrip.{
  from_le_bytes-to_le_bytes, length-to_le_bytes, read_exact-append,
}
use mathlib.Core.List.{append-nil, append_assoc}

abbrev pub IsU32 : ℕ → Type 0
IsU32 v = v < 2 ^ 32

-- The bytes of the entries, without the buffer in front of them.
unfoldable u32_bytes : List ℕ → List ℕ
u32_bytes [] = []
u32_bytes (v ∷ values) = to_le_bytes 4 v ++ u32_bytes values

write_u32s-u32_bytes : (out values : List ℕ) → write_u32s out values ≡ out ++ u32_bytes values
unfolding write_u32s u32_bytes
write_u32s-u32_bytes out [] = sym (append-nil out)
write_u32s-u32_bytes out (v ∷ values) =
    write_u32s-u32_bytes (out ++ to_le_bytes 4 v) values
    ∙ append_assoc out (to_le_bytes 4 v) (u32_bytes values)

length-u32_bytes : (values : List ℕ) → length (u32_bytes values) ≡ 4 * length values
unfolding u32_bytes
length-u32_bytes [] = refl
length-u32_bytes (v ∷ values) = omega (
  arith,
  length-append (to_le_bytes 4 v) (u32_bytes values),
  length-to_le_bytes 4 v,
  length-u32_bytes values,
)

read_u32_loop-u32_bytes :
    (values rest : List ℕ)
    → All IsU32 values
    → read_u32_loop (length values) (u32_bytes values ++ rest) ≡ ok (values, rest)
unfolding read_u32_loop u32_bytes
read_u32_loop-u32_bytes [] rest a = refl
read_u32_loop-u32_bytes (v ∷ values) rest a = rw (
  append_assoc (to_le_bytes 4 v) (u32_bytes values) rest,
  read_exact-append 4 (to_le_bytes 4 v) (u32_bytes values ++ rest) (length-to_le_bytes 4 v),
  read_u32_loop-u32_bytes values rest a.1,
  from_le_bytes-to_le_bytes 4 v a.0,
)

-- A vector of u32s in front of any further bytes reads back, and the cursor stops at those bytes.
pub read_u32s-encode_u32s :
    (values rest : List ℕ) (max_len : ℕ)
    → All IsU32 values
    → length values ≤ max_len
    → length values < 2 ^ 64
    → read_u32s (encode_u32s values ++ rest) max_len ≡ ok (values, rest)
unfolding read_u32s encode_u32s
read_u32s-encode_u32s values rest max_len a le word =
    let n : ℕ = length values in
    let allowed : leb n max_len ≡ true = ground arith in
    let held : leb n (length (u32_bytes values ++ rest) / 4) ≡ true =
      ground (arith, length-append (u32_bytes values) rest, length-u32_bytes values) in
    rw (
      write_u32s-u32_bytes (write_uvarint [] n) values,
      append_assoc (write_uvarint [] n) (u32_bytes values) rest,
      read_uvarint-write_uvarint n (u32_bytes values ++ rest) word,
      allowed,
      held,
      read_u32_loop-u32_bytes values rest a,
    )

-- A vector of u32s, no longer than the caller allows, decodes to itself.
decode_u32s-encode_u32s :
    (values : List ℕ) (max_len : ℕ)
    → All IsU32 values
    → length values ≤ max_len
    → length values < 2 ^ 64
    → decode_u32s (encode_u32s values) max_len ≡ ok values
unfolding decode_u32s end_of_input
decode_u32s-encode_u32s values max_len a le word =
    rw (rw append-nil at (read_u32s-encode_u32s values [] max_len a le word)) refl

read_u32_loop_len :
    (n : ℕ) (bytes values rest : List ℕ)
    → read_u32_loop n bytes ≡ ok (values, rest)
    → length values ≡ n
unfolding read_u32_loop
read_u32_loop_len zero bytes values rest h =
    omega (arith, ap length (ok_first [] values bytes rest h))
read_u32_loop_len (suc n) bytes values rest h =
    let ((chunk, b1), q1, h1) = >>=-eq-ok (read_exact 4 bytes) _ h in
    let ((tail, b2), q2, h2) = >>=-eq-ok (read_u32_loop n b1) _ h1 in
    rw (← ok_first (from_le_bytes chunk ∷ tail) values b2 rest h2)
      (ap suc (read_u32_loop_len n b1 tail b2 q2))

-- Whatever the bytes are, a vector that decodes has at most `max_len` entries.
decode_u32s_bounded :
    (bytes values : List ℕ) (max_len : ℕ)
    → decode_u32s bytes max_len ≡ ok values
    → length values ≤ max_len
unfolding decode_u32s read_u32s
decode_u32s_bounded bytes values max_len h =
    let ((read, rest), q, h1) = >>=-eq-ok (read_u32s bytes max_len) _ h in
    let (end, q0, h2) = >>=-eq-ok (end_of_input rest) _ h1 in
    let ((n, b1), q1, q2) = >>=-eq-ok (read_uvarint bytes) _ q in
    let (allowed, q3, q4) = >>=-eq-ok (guard (leb n max_len) count_exceeds_input) _ q2 in
    let (held, q5, q6) = >>=-eq-ok (guard (leb n (length b1 / 4)) count_exceeds_input) _ q4 in
    let small : leb n max_len ≡ true = guard-true _ _ allowed q3 in
    rw (← ok-injective read values h2)
      (omega (arith, read_u32_loop_len n b1 read rest q6, leb→le _ _ small))

pub length-encode_u32s :
    (values : List ℕ)
    → length (encode_u32s values) ≡ uvarint_len (length values) + length values * 4
unfolding encode_u32s
length-encode_u32s values = omega (
  arith,
  ap length (write_u32s-u32_bytes (write_uvarint [] (length values)) values),
  length-append (write_uvarint [] (length values)) (u32_bytes values),
  length-u32_bytes values,
  uvarint_len-write_uvarint (length values),
)
