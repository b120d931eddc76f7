-- ===== src/Proto/Codec/Total.antt =====
-- The decoder of a block delta does not panic, whatever the bytes.
use private_eth_getbalance_w.Prelude.{
  ℕ, zero, suc, ◌+◌, ◌/◌, ◌^◌, ◌≡◌, List, [], ◌∷◌, Bool, true, false, not, ◌&&◌, Outcome, ok, err,
  IsPanicFree, >>=-IsPanicFree, guard-IsPanicFree, guard, leb, ltb, ◌==◌, length, take, drop, inl,
  inr, if◌then◌else◌,
}
use private_eth_getbalance_w.Prelude.Int.{unsigned_abs}
use private_eth_getbalance_w.Proto.Varint.{
  bad_magic, arity_mismatch, count_exceeds_input, delta_out_of_range, read_uvarint, check_count,
  zigzag_decode,
}
use private_eth_getbalance_w.Proto.Varint.RoundTrip.{read_uvarint_cases}
use private_eth_getbalance_w.Proto.Codec.{
  magic, bytes_eqb, read_exact, read_byte, end_of_input, next_index, read_cells, read_rows,
  read_segments, decode_block_delta, read_u32_loop, read_u32s,
}

of_value : {E : Type 0} {A : Type 0} (run : Outcome E A) (a : A) → run ≡ ok a → IsPanicFree run
of_value run a h = rw h tt

of_error : {E : Type 0} {A : Type 0} (run : Outcome E A) (e : E) → run ≡ err e → IsPanicFree run
of_error run e h = rw h tt

pub read_uvarint-IsPanicFree : (bytes : List ℕ) → IsPanicFree (read_uvarint bytes)
read_uvarint-IsPanicFree bytes = elim (read_uvarint_cases bytes) [
  | inl (p, h) ↦ of_value (read_uvarint bytes) p h
  | inr (inl h) ↦ of_error (read_uvarint bytes) _ h
  | inr (inr h) ↦ of_error (read_uvarint bytes) _ h
]

if_err-IsPanicFree :
    {E : Type 0} {A : Type 0} (b : Bool) (e : E) (run : Outcome E A)
    → IsPanicFree run
    → IsPanicFree (if b then err e else run)
if_err-IsPanicFree true e run h = tt
if_err-IsPanicFree false e run h = h

next_index-IsPanicFree : (limit prev gap : ℕ) → IsPanicFree (next_index limit prev gap)
unfolding next_index
next_index-IsPanicFree limit prev gap =
    if_err-IsPanicFree (not (ltb (prev + gap) (2 ^ 64))) _ _
      (if_err-IsPanicFree (not (ltb (prev + gap) limit)) _ (ok (prev + gap)) tt)

check_count-IsPanicFree : (count remaining : ℕ) → IsPanicFree (check_count count remaining)
unfolding check_count
check_count-IsPanicFree count remaining = if_err-IsPanicFree (ltb remaining count) _ (ok count) tt

read_cells-IsPanicFree :
    (bound count prev_off : ℕ) (bytes : List ℕ)
    → IsPanicFree (read_cells bound count prev_off bytes)
unfolding read_cells
read_cells-IsPanicFree bound zero prev_off bytes = tt
read_cells-IsPanicFree bound (suc count) prev_off bytes =
    >>=-IsPanicFree (read_uvarint bytes) _ (read_uvarint-IsPanicFree bytes) (λ p.
      >>=-IsPanicFree (next_index (2 ^ 16) prev_off p.0) _
        (next_index-IsPanicFree (2 ^ 16) prev_off p.0)
        (λ offset. >>=-IsPanicFree (read_uvarint p.1) _ (read_uvarint-IsPanicFree p.1) (λ q.
          >>=-IsPanicFree (guard (ltb (unsigned_abs (zigzag_decode q.0)) bound) delta_out_of_range)
            _ (guard-IsPanicFree (ltb (unsigned_abs (zigzag_decode q.0)) bound) delta_out_of_range)
            (λ u.
              >>=-IsPanicFree (read_cells bound count offset q.1) _
                (read_cells-IsPanicFree bound count offset q.1) (λ rest. tt)))))

read_rows-IsPanicFree :
    (bound count prev_row : ℕ) (bytes : List ℕ) → IsPanicFree (read_rows bound count prev_row bytes)
unfolding read_rows
read_rows-IsPanicFree bound zero prev_row bytes = tt
read_rows-IsPanicFree bound (suc count) prev_row bytes =
    >>=-IsPanicFree (read_uvarint bytes) _ (read_uvarint-IsPanicFree bytes) (λ p.
      >>=-IsPanicFree (next_index (2 ^ 32) prev_row p.0) _
        (next_index-IsPanicFree (2 ^ 32) prev_row p.0)
        (λ row. >>=-IsPanicFree (read_uvarint p.1) _ (read_uvarint-IsPanicFree p.1) (λ q.
          >>=-IsPanicFree (check_count q.0 (length q.1)) _
            (check_count-IsPanicFree q.0 (length q.1))
            (λ n.
              >>=-IsPanicFree (read_cells bound n 0 q.1) _ (read_cells-IsPanicFree bound n 0 q.1)
                (λ cells.
                  >>=-IsPanicFree (read_rows bound count row cells.1) _
                    (read_rows-IsPanicFree bound count row cells.1) (λ rest. tt))))))

read_segments-IsPanicFree :
    (bound arity : ℕ) (bytes : List ℕ) → IsPanicFree (read_segments bound arity bytes)
unfolding read_segments
read_segments-IsPanicFree bound zero bytes = tt
read_segments-IsPanicFree bound (suc arity) bytes =
    >>=-IsPanicFree (read_uvarint bytes) _ (read_uvarint-IsPanicFree bytes) (λ p.
      >>=-IsPanicFree (check_count p.0 (length p.1)) _ (check_count-IsPanicFree p.0 (length p.1))
        (λ n.
          >>=-IsPanicFree (read_rows bound n 0 p.1) _ (read_rows-IsPanicFree bound n 0 p.1) (λ rows.
            >>=-IsPanicFree (read_segments bound arity rows.1) _
              (read_segments-IsPanicFree bound arity rows.1) (λ rest. tt))))

pub read_exact-IsPanicFree : (n : ℕ) (bytes : List ℕ) → IsPanicFree (read_exact n bytes)
unfolding read_exact
read_exact-IsPanicFree n bytes = if_err-IsPanicFree (ltb (length bytes) n) _ (ok _) tt

read_byte-IsPanicFree : (bytes : List ℕ) → IsPanicFree (read_byte bytes)
unfolding read_byte
read_byte-IsPanicFree [] = tt
read_byte-IsPanicFree (b ∷ bytes) = tt

end_of_input-IsPanicFree : (bytes : List ℕ) → IsPanicFree (end_of_input bytes)
unfolding end_of_input
end_of_input-IsPanicFree [] = tt
end_of_input-IsPanicFree (b ∷ bytes) = tt

pub decode_block_delta-IsPanicFree :
    (bytes : List ℕ) (plaintext_bits arity : ℕ)
    → IsPanicFree (decode_block_delta bytes plaintext_bits arity)
unfolding decode_block_delta
decode_block_delta-IsPanicFree bytes plaintext_bits arity =
    let width = leb 1 plaintext_bits && leb plaintext_bits 31 in
    let begins = leb 4 (length bytes) && bytes_eqb (take 4 bytes) magic in
    >>=-IsPanicFree (guard width delta_out_of_range) _ (guard-IsPanicFree width delta_out_of_range)
      (λ u0. >>=-IsPanicFree (guard begins bad_magic) _ (guard-IsPanicFree begins bad_magic) (λ u1.
        >>=-IsPanicFree (read_exact 8 (drop 4 bytes)) _ (read_exact-IsPanicFree 8 (drop 4 bytes))
          (λ p. >>=-IsPanicFree (read_byte p.1) _ (read_byte-IsPanicFree p.1) (λ q.
            >>=-IsPanicFree (guard (q.0 == arity) (arity_mismatch arity q.0)) _
              (guard-IsPanicFree (q.0 == arity) (arity_mismatch arity q.0))
              (λ u2.
                >>=-IsPanicFree (read_segments (2 ^ plaintext_bits) arity q.1) _
                  (read_segments-IsPanicFree (2 ^ plaintext_bits) arity q.1)
                  (λ segs.
                    >>=-IsPanicFree (end_of_input segs.1) _ (end_of_input-IsPanicFree segs.1)
                      (λ u3. tt)))))))

read_u32_loop-IsPanicFree : (len : ℕ) (bytes : List ℕ) → IsPanicFree (read_u32_loop len bytes)
unfolding read_u32_loop
read_u32_loop-IsPanicFree zero bytes = tt
read_u32_loop-IsPanicFree (suc len) bytes =
    >>=-IsPanicFree (read_exact 4 bytes) _ (read_exact-IsPanicFree 4 bytes) (λ p.
      >>=-IsPanicFree (read_u32_loop len p.1) _ (read_u32_loop-IsPanicFree len p.1) (λ rest. tt))

pub read_u32s-IsPanicFree : (bytes : List ℕ) (max_len : ℕ) → IsPanicFree (read_u32s bytes max_len)
unfolding read_u32s
read_u32s-IsPanicFree bytes max_len =
    >>=-IsPanicFree (read_uvarint bytes) _ (read_uvarint-IsPanicFree bytes) (λ p.
      >>=-IsPanicFree (guard (leb p.0 max_len) count_exceeds_input) _
        (guard-IsPanicFree (leb p.0 max_len) count_exceeds_input)
        (λ u.
          >>=-IsPanicFree (guard (leb p.0 (length p.1 / 4)) count_exceeds_input) _
            (guard-IsPanicFree (leb p.0 (length p.1 / 4)) count_exceeds_input)
            (λ v. read_u32_loop-IsPanicFree p.0 p.1)))
