-- ===== src/Http/Wire/Setup/Length.antt =====
-- The capacity that is reserved for a set-up bundle is what it takes.
use private_eth_getbalance_w.Prelude.{
  ℕ, ◌+◌, ◌*◌, ◌≡◌, refl, ◌∙◌, ap, arith, List, [], ◌∷◌, ◌++◌, length, length-append, All,
}
use private_eth_getbalance_w.Proto.Codec.{encode_u32s}
use private_eth_getbalance_w.Proto.Codec.RoundTrip.{length-to_le_bytes}
use private_eth_getbalance_w.Proto.Codec.Vectors.{length-encode_u32s}
use private_eth_getbalance_w.Http.Wire.{SimpleServerParams, SetupBundle, write_vectors}
use private_eth_getbalance_w.Http.Wire.Setup.{
  server_params_bytes, write_server_params, setup_head, encode_setup, add_hint_lens,
  setup_encoded_len,
}

write_vectors_len :
    (out : List ℕ) (hints : List (List ℕ))
    → length (write_vectors out hints) ≡ add_hint_lens (length out) hints
unfolding write_vectors add_hint_lens
write_vectors_len out [] = refl
write_vectors_len out (hint ∷ hints) =
    write_vectors_len (out ++ encode_u32s hint) hints
    ∙ ap (λ n. add_hint_lens n hints)
        (length-append out (encode_u32s hint) ∙ ap (λ n. length out + n) (length-encode_u32s hint))

length-server_params_bytes :
    (sp : SimpleServerParams) → length sp.params.seed ≡ 16 → length (server_params_bytes sp) ≡ 52
unfolding server_params_bytes
length-server_params_bytes sp h =
    rw
      (
        length-append, length-append, length-append, length-append, length-append, length-append,
        length-append, length-append, h, length-to_le_bytes, length-to_le_bytes, length-to_le_bytes,
        length-to_le_bytes, length-to_le_bytes, length-to_le_bytes, length-to_le_bytes,
        length-to_le_bytes,
      )
      refl

write_server_params_len :
    (out : List ℕ) (sps : List SimpleServerParams)
    → All (λ sp. length sp.params.seed ≡ 16) sps
    → length (write_server_params out sps) ≡ length out + 52 * length sps
unfolding write_server_params
write_server_params_len out [] h = omega arith
write_server_params_len out (sp ∷ sps) h = omega (
  arith,
  write_server_params_len (out ++ server_params_bytes sp) sps h.1,
  length-append out (server_params_bytes sp),
  length-server_params_bytes sp h.0,
)

length-setup_head : (bundle : SetupBundle) → length (setup_head bundle) ≡ 33
unfolding setup_head
length-setup_head bundle =
    rw
      (
        length-append, length-append, length-append, length-append, length-append, length-append,
        length-to_le_bytes, length-to_le_bytes, length-to_le_bytes, length-to_le_bytes,
        length-to_le_bytes, length-to_le_bytes,
      )
      refl

-- The encoding of a set-up bundle whose seeds have 16 bytes is exactly as long as the length that is
-- computed for it in advance, also where the hints do not fit the bundle's geometry.
pub length-encode_setup :
    (bundle : SetupBundle)
    → All (λ sp. length sp.params.seed ≡ 16) bundle.backend_params
    → length (encode_setup bundle) ≡ setup_encoded_len bundle
unfolding encode_setup setup_encoded_len
length-encode_setup bundle h =
    write_vectors_len (write_server_params (setup_head bundle) bundle.backend_params) bundle.hints
    ∙ ap (λ n. add_hint_lens n bundle.hints)
        (write_server_params_len (setup_head bundle) bundle.backend_params h
          ∙ ap (λ n. n + 52 * length bundle.backend_params) (length-setup_head bundle))
