-- ===== src/Http/Wire/Setup/Sound.antt =====
-- What decodes as a set-up bundle is one that the PIR kernels can index, whatever the bytes are.
use private_eth_getbalance_w.Prelude.{
  ℕ, zero, suc, ◌+◌, ◌≡◌, refl, ap, List, [], ◌∷◌, length, map, true, Outcome, ok, err, guard,
  if◌then◌else◌, ◌==◌, Bool, false,
}
use private_eth_getbalance_w.Http.Wire.{
  WireError, bad_scheme, invalid_simple_params, arity_of, segmented_2ary, segmented_3ary,
  segmented_4ary, SimpleParams, SimpleServerParams, SetupBundle, setup_magic, expect_magic, read_u8,
  read_u32, read_u64, read_f64, read_seed, end_of_message, read_vector, mul_u32_saturating_usize,
}
use private_eth_getbalance_w.Http.Wire.Sound.{
  Ensures, >>=-Ensures, after, guard-Ensures, expect_magic-Ensures, read_u8-Ensures,
  read_chunk-Ensures, read_u32-Ensures, read_u64-Ensures, end_of_message-Ensures,
  read_vector-Ensures,
}
use private_eth_getbalance_w.Http.Wire.Setup.{
  scheme_of, are_valid, read_server_params, read_backend_params, read_hints, decode_setup,
}
use private_eth_getbalance_w.Http.Wire.Setup.RoundTrip.{hint_len}

if_ok-Ensures :
    {E : Type 0} {A : Type 0} (b : Bool) (a : A) (run : Outcome E A)
    → Ensures (λ x. Unit) run
    → Ensures (λ x. Unit) (if b then ok a else run)
if_ok-Ensures true a run h = tt
if_ok-Ensures false a run h = h

scheme_of-Ensures : (scheme_byte : ℕ) → Ensures (λ x. Unit) (scheme_of scheme_byte)
scheme_of-Ensures scheme_byte = if_ok-Ensures (scheme_byte == 2) segmented_2ary _ (
    if_ok-Ensures (scheme_byte == 3) segmented_3ary _
      (if_ok-Ensures (scheme_byte == 4) segmented_4ary (err (bad_scheme scheme_byte)) tt))

read_hints-Ensures :
    (sps : List SimpleServerParams) (segment : ℕ) (bytes : List ℕ)
    → Ensures (λ p. map length p.0 ≡ map hint_len sps) (read_hints sps segment bytes)
unfolding read_hints
read_hints-Ensures [] segment bytes = refl
read_hints-Ensures (sp ∷ sps) segment bytes =
    let max_len = mul_u32_saturating_usize sp.params.lwe_dim sp.reshape_row_width in
    >>=-Ensures (λ p. length p.0 ≡ hint_len sp) (λ p. map length p.0 ≡ map hint_len (sp ∷ sps))
      (read_vector segment max_len (hint_len sp) bytes) _
      (read_vector-Ensures segment max_len (hint_len sp) bytes)
      (λ p here.
        >>=-Ensures (λ q. map length q.0 ≡ map hint_len sps)
          (λ q. map length q.0 ≡ map hint_len (sp ∷ sps)) (read_hints sps (segment + 1) p.1) _
          (read_hints-Ensures sps (segment + 1) p.1) (λ q later. rw (here, later) refl))

-- The parameters and the hints of a bundle are those of a scheme of its kind.
abbrev pub IsIndexable : SetupBundle → Type 0
IsIndexable bundle =
    (length bundle.backend_params ≡ arity_of bundle.params.scheme_kind)
    × (map length bundle.hints ≡ map hint_len bundle.backend_params)

module _ (new_simple_params : ℕ → ℕ → ℕ → List ℕ → Outcome WireError SimpleParams)
    (new_simple_params_total : (lwe_dim plaintext_bits sigma : ℕ) (seed : List ℕ)
      → are_valid lwe_dim plaintext_bits sigma ≡ true
      → (p : SimpleParams) × (new_simple_params lwe_dim plaintext_bits sigma seed ≡ ok p)) where
  new_simple_params-Ensures :
      (lwe_dim plaintext_bits sigma : ℕ) (seed : List ℕ)
      → are_valid lwe_dim plaintext_bits sigma ≡ true
      → Ensures (λ x. Unit) (new_simple_params lwe_dim plaintext_bits sigma seed)
  new_simple_params-Ensures lwe_dim plaintext_bits sigma seed h =
      let (p, e) = new_simple_params_total lwe_dim plaintext_bits sigma seed h in rw e tt

  read_server_params-Ensures :
      (segment : ℕ) (bytes : List ℕ)
      → Ensures (λ x. Unit) (read_server_params new_simple_params segment bytes)
  unfolding read_server_params
  read_server_params-Ensures segment bytes =
      after Q (read_u32 bytes) _ (read_u32-Ensures bytes) (λ a0.
        after Q (read_u32 a0.1) _ (read_u32-Ensures a0.1) (λ a1.
          after Q (read_f64 a1.1) _ (read_u64-Ensures a1.1) (λ a2.
            after Q (read_seed a2.1) _ (read_chunk-Ensures 16 a2.1) (λ a3.
              after Q (read_u32 a3.1) _ (read_u32-Ensures a3.1) (λ a4.
                after Q (read_u32 a4.1) _ (read_u32-Ensures a4.1) (λ a5.
                  after Q (read_u32 a5.1) _ (read_u32-Ensures a5.1) (λ a6.
                    after Q (read_u32 a6.1) _ (read_u32-Ensures a6.1) (λ a7.
                      after Q (read_u32 a7.1) _ (read_u32-Ensures a7.1) (λ a8.
                        let valid = are_valid a0.0 a1.0 a2.0 in
                        >>=-Ensures (λ u. valid ≡ true) Q
                          (guard valid (invalid_simple_params segment)) _
                          (guard-Ensures valid (invalid_simple_params segment))
                          (λ u h.
                            after Q (new_simple_params a0.0 a1.0 a2.0 a3.0) _
                              (new_simple_params-Ensures a0.0 a1.0 a2.0 a3.0 h) (λ p. tt)))))))))))
    where
      Q : SimpleServerParams × List ℕ → Type 0
      Q x = Unit

  read_backend_params-Ensures :
      (left segment : ℕ) (bytes : List ℕ)
      → Ensures (λ p. length p.0 ≡ left) (read_backend_params new_simple_params left segment bytes)
  unfolding read_backend_params
  read_backend_params-Ensures zero segment bytes = refl
  read_backend_params-Ensures (suc left) segment bytes =
      after (λ p. length p.0 ≡ suc left) (read_server_params new_simple_params segment bytes) _
        (read_server_params-Ensures segment bytes)
        (λ p.
          >>=-Ensures (λ q. length q.0 ≡ left) (λ q. length q.0 ≡ suc left)
            (read_backend_params new_simple_params left (segment + 1) p.1) _
            (read_backend_params-Ensures left (segment + 1) p.1) (λ q n. ap suc n))

  -- If the scheme takes every valid parameters, decoding a set-up bundle does not panic, whatever the bytes
  -- are, and if it succeeds there are parameters for each segment of the bundle's scheme, and for each of
  -- them a hint that is exactly as long as they require.
  pub decode_setup-Ensures :
      (bytes : List ℕ) → Ensures IsIndexable (decode_setup new_simple_params bytes)
  unfolding decode_setup
  decode_setup-Ensures bytes =
      after IsIndexable (expect_magic bytes setup_magic) _ (expect_magic-Ensures bytes setup_magic)
        (λ b0. after IsIndexable (read_u8 b0) _ (read_u8-Ensures b0) (λ s.
          after IsIndexable (scheme_of s.0) _ (scheme_of-Ensures s.0) (λ kind.
            after IsIndexable (read_u32 s.1) _ (read_u32-Ensures s.1) (λ a0.
              after IsIndexable (read_u32 a0.1) _ (read_u32-Ensures a0.1) (λ a1.
                after IsIndexable (read_u32 a1.1) _ (read_u32-Ensures a1.1) (λ a2.
                  after IsIndexable (read_u32 a2.1) _ (read_u32-Ensures a2.1) (λ a3.
                    after IsIndexable (read_u32 a3.1) _ (read_u32-Ensures a3.1) (λ a4.
                      after IsIndexable (read_u64 a4.1) _ (read_u64-Ensures a4.1) (λ a5.
                        >>=-Ensures (λ p. length p.0 ≡ arity_of kind) IsIndexable
                          (read_backend_params new_simple_params (arity_of kind) 0 a5.1) _
                          (read_backend_params-Ensures (arity_of kind) 0 a5.1)
                          (λ p n.
                            >>=-Ensures (λ q. map length q.0 ≡ map hint_len p.0) IsIndexable
                              (read_hints p.0 0 p.1) _ (read_hints-Ensures p.0 0 p.1)
                              (λ q lens.
                                after IsIndexable (end_of_message q.1) _
                                  (end_of_message-Ensures q.1) (λ u. (n, lens)))))))))))))
