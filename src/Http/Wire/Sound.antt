-- ===== src/Http/Wire/Sound.antt =====
-- What decodes as a query or a response bundle is what the PIR kernels can index, whatever the bytes are.
use private_eth_getbalance_w.Prelude.{
  ℕ, ◌+◌, ◌≡◌, refl, List, [], ◌∷◌, length, map, Bool, true, false, Outcome, ok, err, panic, ◌>>=◌,
  guard, IsPanicFree, ==_iff, ◌==◌, if◌then◌else◌,
}
use private_eth_getbalance_w.Proto.Codec.{read_u32s}
use private_eth_getbalance_w.Proto.Varint.{CodecError}
use private_eth_getbalance_w.Proto.Codec.Total.{read_u32s-IsPanicFree}
use private_eth_getbalance_w.Http.Wire.{
  CuckooParams, arity_of, arity_mismatch, segment_length_mismatch, query_magic, response_magic,
  from_codec, expect_magic, read_u8, read_chunk, read_u32, read_u64, end_of_message, read_vector,
  read_vectors, decode_query_bundle, decode_response_bundle,
}

-- A run that does not panic, and whose value, if it has one, is as said.
abbrev pub Ensures : {E : Type 0} {A : Type 0} → (A → Type 0) → Outcome E A → Type 0
Ensures P (ok a) = P a
Ensures P (err e) = Unit
Ensures P panic = ⊥

pub >>=-Ensures :
    {E : Type 0} {A B : Type 0} (P : A → Type 0) (Q : B → Type 0) (run : Outcome E A)
    (next : A → Outcome E B)
    → Ensures P run
    → ((a : A) → P a → Ensures Q (next a))
    → Ensures Q (run >>= next)
>>=-Ensures P Q (ok a) next h k = k a h
>>=-Ensures P Q (err e) next h k = tt
>>=-Ensures P Q panic next h k = h

-- A run of which nothing is needed but that it does not panic.
pub after :
    {E : Type 0} {A B : Type 0} (Q : B → Type 0) (run : Outcome E A) (next : A → Outcome E B)
    → Ensures (λ a. Unit {0}) run
    → ((a : A) → Ensures Q (next a))
    → Ensures Q (run >>= next)
after Q run next h k = >>=-Ensures (λ a. Unit) Q run next h (λ a u. k a)

pub guard-Ensures : {E : Type 0} (b : Bool) (e : E) → Ensures (λ u. b ≡ true) (guard b e)
guard-Ensures true e = refl
guard-Ensures false e = tt

from_codec-Ensures :
    {A : Type 0} (run : Outcome CodecError A)
    → IsPanicFree run
    → Ensures (λ a. Unit) (from_codec run)
from_codec-Ensures (ok a) h = tt
from_codec-Ensures (err e) h = tt
from_codec-Ensures panic h = h

if_err-Ensures :
    {E : Type 0} {A : Type 0} (b : Bool) (e : E) (a : A)
    → Ensures (λ x. Unit) (if b then err e else ok a)
if_err-Ensures true e a = tt
if_err-Ensures false e a = tt

pub expect_magic-Ensures : (bytes magic : List ℕ) → Ensures (λ x. Unit) (expect_magic bytes magic)
unfolding expect_magic
expect_magic-Ensures bytes magic = if_err-Ensures _ _ _

pub read_u8-Ensures : (bytes : List ℕ) → Ensures (λ x. Unit) (read_u8 bytes)
unfolding read_u8
read_u8-Ensures [] = tt
read_u8-Ensures (b ∷ bytes) = tt

pub read_chunk-Ensures : (n : ℕ) (bytes : List ℕ) → Ensures (λ x. Unit) (read_chunk n bytes)
unfolding read_chunk
read_chunk-Ensures n bytes = if_err-Ensures _ _ _

pub read_u32-Ensures : (bytes : List ℕ) → Ensures (λ x. Unit) (read_u32 bytes)
unfolding read_u32
read_u32-Ensures bytes =
    after (λ x. Unit) (read_chunk 4 bytes) _ (read_chunk-Ensures 4 bytes) (λ p. tt)

pub read_u64-Ensures : (bytes : List ℕ) → Ensures (λ x. Unit) (read_u64 bytes)
unfolding read_u64
read_u64-Ensures bytes =
    after (λ x. Unit) (read_chunk 8 bytes) _ (read_chunk-Ensures 8 bytes) (λ p. tt)

pub end_of_message-Ensures : (bytes : List ℕ) → Ensures (λ x. Unit) (end_of_message bytes)
unfolding end_of_message
end_of_message-Ensures [] = tt
end_of_message-Ensures (b ∷ bytes) = tt

pub read_vector-Ensures :
    (segment max_len expected : ℕ) (bytes : List ℕ)
    → Ensures (λ p. length p.0 ≡ expected) (read_vector segment max_len expected bytes)
unfolding read_vector
read_vector-Ensures segment max_len expected bytes =
    after (λ p. length p.0 ≡ expected) (from_codec (read_u32s bytes max_len)) _
      (from_codec-Ensures (read_u32s bytes max_len) (read_u32s-IsPanicFree bytes max_len))
      (λ p.
        >>=-Ensures (λ u. (length p.0 == expected) ≡ true) (λ q. length q.0 ≡ expected)
          (guard (length p.0 == expected) (segment_length_mismatch segment expected (length p.0))) _
          (guard-Ensures (length p.0 == expected)
            (segment_length_mismatch segment expected (length p.0)))
          (λ u same. (==_iff (length p.0) expected).0 same))

read_vectors-Ensures :
    (lens : List ℕ) (segment : ℕ) (bytes : List ℕ)
    → Ensures (λ p. map length p.0 ≡ lens) (read_vectors lens segment bytes)
unfolding read_vectors
read_vectors-Ensures [] segment bytes = refl
read_vectors-Ensures (len ∷ lens) segment bytes =
    >>=-Ensures (λ p. length p.0 ≡ len) (λ p. map length p.0 ≡ len ∷ lens)
      (read_vector segment len len bytes) _ (read_vector-Ensures segment len len bytes)
      (λ p here.
        >>=-Ensures (λ q. map length q.0 ≡ lens) (λ q. map length q.0 ≡ len ∷ lens)
          (read_vectors lens (segment + 1) p.1) _ (read_vectors-Ensures lens (segment + 1) p.1)
          (λ q later. rw (here, later) refl))

-- Decoding a query bundle does not panic, whatever the bytes are, and if it succeeds there is a query for
-- each segment of the scheme, and each is exactly as long as expected.
pub decode_query_bundle-Ensures :
    (bytes : List ℕ) (params : CuckooParams) (lens : List ℕ)
    → Ensures
        (λ queries. (map length queries ≡ lens) × (length lens ≡ arity_of params.scheme_kind))
        (decode_query_bundle bytes params lens)
unfolding decode_query_bundle
decode_query_bundle-Ensures bytes params lens =
    let arity = arity_of params.scheme_kind in
    let Q = λ (queries : List (List ℕ)). (map length queries ≡ lens) × (length lens ≡ arity) in
    after Q (expect_magic bytes query_magic) _ (expect_magic-Ensures bytes query_magic) (λ b0.
      after Q (read_u8 b0) _ (read_u8-Ensures b0) (λ p.
        >>=-Ensures (λ u. (p.0 == arity) ≡ true) Q (guard (p.0 == arity) (arity_mismatch arity p.0))
          _ (guard-Ensures (p.0 == arity) (arity_mismatch arity p.0))
          (λ u0 e0.
            >>=-Ensures (λ u. (length lens == arity) ≡ true) Q
              (guard (length lens == arity) (arity_mismatch arity (length lens))) _
              (guard-Ensures (length lens == arity) (arity_mismatch arity (length lens)))
              (λ u1 e1.
                >>=-Ensures (λ q. map length q.0 ≡ lens) Q (read_vectors lens 0 p.1) _
                  (read_vectors-Ensures lens 0 p.1)
                  (λ q same.
                    after Q (end_of_message q.1) _ (end_of_message-Ensures q.1)
                      (λ u2. (same, (==_iff (length lens) arity).0 e1)))))))

-- Decoding a response bundle does not panic, whatever the bytes are, and if it succeeds there is a response
-- for each expected length, and each is exactly as long as expected.
pub decode_response_bundle-Ensures :
    (bytes lens : List ℕ) (arity : ℕ)
    → Ensures (λ bundle. map length bundle.0 ≡ lens) (decode_response_bundle bytes lens arity)
unfolding decode_response_bundle
decode_response_bundle-Ensures bytes lens arity =
    let Q = λ (bundle : List (List ℕ) × ℕ). map length bundle.0 ≡ lens in
    after Q (expect_magic bytes response_magic) _ (expect_magic-Ensures bytes response_magic) (λ b0.
      after Q (read_u8 b0) _ (read_u8-Ensures b0) (λ p.
        >>=-Ensures (λ u. (p.0 == arity) ≡ true) Q (guard (p.0 == arity) (arity_mismatch arity p.0))
          _ (guard-Ensures (p.0 == arity) (arity_mismatch arity p.0))
          (λ u0 e0.
            >>=-Ensures (λ u. (length lens == arity) ≡ true) Q
              (guard (length lens == arity) (arity_mismatch arity (length lens))) _
              (guard-Ensures (length lens == arity) (arity_mismatch arity (length lens)))
              (λ u1 e1. after Q (read_u64 p.1) _ (read_u64-Ensures p.1) (λ r.
                >>=-Ensures (λ q. map length q.0 ≡ lens) Q (read_vectors lens 0 r.1) _
                  (read_vectors-Ensures lens 0 r.1)
                  (λ q same.
                    after Q (end_of_message q.1) _ (end_of_message-Ensures q.1) (λ u2. same)))))))
