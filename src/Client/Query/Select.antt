-- ===== src/Client/Query/Select.antt =====
-- The branchless selection over the candidate slots, against a search for the key's slot.
use private_eth_getbalance_w.Prelude.{
  ℕ, ◌^◌, ◌<◌, ◌≡◌, refl, sym, ◌∙◌, ap, bit_and, List, [], ◌∷◌, ◌++◌, Outcome, ok, ◌>>=◌, >>=_assoc,
  >>=-cong, length, replicate, All, inl, inr,
}
use private_eth_getbalance_w.Proto.Value.{ValueCodec, extract_key_tag}
use private_eth_getbalance_w.Client.Pending.{ClientError}
use private_eth_getbalance_w.Client.Query.{Selection, ct_eq_u64_mask, or_masked, select_slot}
use private_eth_getbalance_w.Client.Query.Mask.{
  ones, ct_eq_u64_mask_cases, ct_eq_u64_mask_same, bit_or-zero_left, bit_and-zero_left,
  bit_and-byte,
}
use private_eth_getbalance_w.Prelude.Bits.{bit_or-zero}

or_masked-zero : (acc value_bytes : List ℕ) → or_masked 0 acc value_bytes ≡ acc
unfolding or_masked
or_masked-zero [] value_bytes = refl
or_masked-zero (a ∷ acc) [] = refl
or_masked-zero (a ∷ acc) (v ∷ value_bytes) =
    rw (bit_and-zero_left v, bit_or-zero a, or_masked-zero acc value_bytes) refl

or_masked-ones :
    (value_bytes : List ℕ)
    → All (λ v. v < 256) value_bytes
    → or_masked 0xff (replicate (length value_bytes) 0) value_bytes ≡ value_bytes
unfolding or_masked
or_masked-ones [] h = refl
or_masked-ones (v ∷ value_bytes) (h, hs) =
    rw (bit_and-byte v h, bit_or-zero_left v, or_masked-ones value_bytes hs) refl

module _ (value_codec : ValueCodec) (fp tag : ℕ) where
  -- The slots in the order of the selection.
  unfoldable pub select_all : List (ℕ × List ℕ) → Selection → Outcome ClientError Selection
  select_all [] s = ok s
  select_all (slot ∷ slots) s = do s ← select_slot value_codec fp tag slot s; select_all slots s

  pub select_all-append :
      (xs ys : List (ℕ × List ℕ)) (s : Selection)
      → select_all (xs ++ ys) s ≡ (select_all xs s >>= select_all ys)
  unfolding select_all
  select_all-append [] ys s = refl
  select_all-append (x ∷ xs) ys s =
      >>=-cong (select_slot value_codec fp tag x s) _ _ (λ s1. select_all-append xs ys s1)
      ∙ sym (>>=_assoc (select_slot value_codec fp tag x s) (select_all xs) (select_all ys))

  -- The tag of a slot is read, and numbers are in the range of their types.
  pub record IsRead (slot : ℕ × List ℕ) : Type 0 where
    pub fingerprint : slot.0 < 2 ^ 64
    pub stored : ℕ
    pub small : stored < 2 ^ 64
    pub read : extract_key_tag {E = ClientError} value_codec slot.1 ≡ ok stored

  -- The slot is the key's: both its fingerprint and its tag.
  abbrev pub IsMatch : ℕ × List ℕ → Type 0
  IsMatch slot = (slot.0 ≡ fp) × (extract_key_tag {E = ClientError} value_codec slot.1 ≡ ok tag)

  -- Another slot leaves the selection as it is.
  select_other :
      (slot : ℕ × List ℕ) (s : Selection)
      → fp < 2 ^ 64
      → tag < 2 ^ 64
      → IsRead slot
      → (IsMatch slot → ⊥)
      → select_slot value_codec fp tag slot s ≡ ok s
  unfolding select_slot
  select_other (slot_fp, bytes) s f t r other =
      let none_set : bit_and (ct_eq_u64_mask slot_fp fp) (ct_eq_u64_mask r.stored tag) ≡ 0 =
        masked in
      rw (r.read, none_set, or_masked-zero s.acc bytes, bit_or-zero s.found_mask) refl
    where
      masked : bit_and (ct_eq_u64_mask slot_fp fp) (ct_eq_u64_mask r.stored tag) ≡ 0
      masked = elim (ct_eq_u64_mask_cases slot_fp fp r.fingerprint f) [
        | inr (ne, m) ↦ rw m (bit_and-zero_left (ct_eq_u64_mask r.stored tag))
        | inl (same, m) ↦ elim (ct_eq_u64_mask_cases r.stored tag r.small t) [
          | inr (ne, k) ↦ rw (m, k) refl
          | inl (also, k) ↦ absurd (other (same, r.read ∙ ap ok also))
        ]
      ]

  -- The key's slot, on an empty selection.
  select_match :
      (bytes : List ℕ)
      → fp < 2 ^ 64
      → tag < 2 ^ 64
      → extract_key_tag {E = ClientError} value_codec bytes ≡ ok tag
      → All (λ v. v < 256) bytes
      → select_slot value_codec fp tag
          (fp, bytes)
          (record { acc = replicate (length bytes) 0; found_mask = 0 })
        ≡ ok (record { acc = bytes; found_mask = ones })
  unfolding select_slot
  select_match bytes f t read small =
      rw (read, ct_eq_u64_mask_same fp f, ct_eq_u64_mask_same tag t, or_masked-ones bytes small)
        refl

  pub select_others :
      (slots : List (ℕ × List ℕ)) (s : Selection)
      → fp < 2 ^ 64
      → tag < 2 ^ 64
      → All (λ slot. IsRead slot × (IsMatch slot → ⊥)) slots
      → select_all slots s ≡ ok s
  unfolding select_all
  select_others [] s f t h = refl
  select_others (slot ∷ slots) s f t ((r, other), hs) =
      rw (select_other slot s f t r other) (select_others slots s f t hs)

  pub select_unique :
      (front back : List (ℕ × List ℕ)) (bytes : List ℕ)
      → fp < 2 ^ 64
      → tag < 2 ^ 64
      → All (λ slot. IsRead slot × (IsMatch slot → ⊥)) front
      → All (λ slot. IsRead slot × (IsMatch slot → ⊥)) back
      → extract_key_tag {E = ClientError} value_codec bytes ≡ ok tag
      → All (λ v. v < 256) bytes
      → select_all
          (front ++ (fp, bytes) ∷ back)
          (record { acc = replicate (length bytes) 0; found_mask = 0 })
        ≡ ok (record { acc = bytes; found_mask = ones })
  unfolding select_all
  select_unique front back bytes f t before after read small =
      let start : Selection = record { acc = replicate (length bytes) 0; found_mask = 0 } in
      select_all-append front ((fp, bytes) ∷ back) start
      ∙ rw (select_others front start f t before, select_match bytes f t read small)
          (select_others back (record { acc = bytes; found_mask = ones }) f t after)
