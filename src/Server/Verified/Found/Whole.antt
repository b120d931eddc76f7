-- ===== src/Server/Verified/Found/Whole.antt =====
-- What the scan of `locate` finds in all slots.
use private_eth_getbalance_w.Prelude.{
  ℕ, suc, ◌+◌, ◌^◌, ◌<◌, ◌≡◌, ◌≢◌, refl, sym, ◌∙◌, ap, arith, List, [], ◌∷◌, false, ◌||◌, none,
  some, inl, inr, ◌⊎◌, Bool-cases,
}
use private_eth_getbalance_w.Prelude.{ok, >>=-eq-ok, ok-injective, ltb, ◌==◌, ==_iff, length, All}
use private_eth_getbalance_w.Proto.Delta.{AddressHash}
use private_eth_getbalance_w.Proto.Value.{ValueCodec, Lookup}
use private_eth_getbalance_w.Server.Verified.{Scan, scan_slot}
use private_eth_getbalance_w.Server.Verified.Found.{
  IsForeign, scan_all, IsSplit, Passed, Taken, step,
}

module _ (xxh3_64_with_seed : AddressHash → ℕ → ℕ) (c : ValueCodec) (key : AddressHash)
    (fp : ℕ) where
  -- Once the key's slot is found, the rest of the scan passes foreign slots only.
  scan_after :
      (slots : List (ℕ × List ℕ)) (s s' : Scan) (l : Lookup)
      → s.ours ≡ some l
      → scan_all xxh3_64_with_seed c key fp slots s ≡ ok s'
      → (s'.ours ≡ some l)
        × (s'.foreign_seen_before_ours ≡ s.foreign_seen_before_ours)
        × All (IsForeign xxh3_64_with_seed c key fp) slots
  unfolding scan_all
  scan_after [] s s' l o e = let same : s ≡ s' = ok-injective s s' e in rw (← same) (o, refl, tt)
  scan_after (slot ∷ slots) s s' l o e =
      let (s1, q, e1) = >>=-eq-ok (scan_slot xxh3_64_with_seed c key fp slot s) _ e in
      elim (step xxh3_64_with_seed c key fp slot s s1 q) [
        | inl p ↦
            let (ours, seen, rest) = scan_after slots s1 s' l (p.ours ∙ o) e1 in
            (ours, seen ∙ p.seen, (p.foreign, rest))
        | inr t ↦ absurd (cc t.none_yet)
      ]

  -- What a whole scan finds: no slot of the key, or one, of which it tells if a slot with the same
  -- fingerprint stands before it.
  abbrev pub Scanned : List (ℕ × List ℕ) → Scan → Scan → Type 0
  Scanned slots s s' =
      ((s'.ours ≡ none) × All (IsForeign xxh3_64_with_seed c key fp) slots)
      ⊎ ((l : Lookup) × (s'.ours ≡ some l)
          × (s'.foreign_seen_before_ours ≡ false → s.foreign_fp_matches ≡ 0)
          × IsSplit xxh3_64_with_seed c key fp slots l s'.foreign_seen_before_ours)

  -- A slot in front of those that were scanned.
  in_front :
      (slot : ℕ × List ℕ) (slots : List (ℕ × List ℕ)) (s s1 s' : Scan)
      → s.foreign_fp_matches + 1 < 2 ^ 32
      → Passed xxh3_64_with_seed c key fp slot s s1
      → Scanned slots s1 s'
      → Scanned (slot ∷ slots) s s'
  in_front slot slots s s1 s' room p (inl (ours, rest)) = inl (ours, (p.foreign, rest))
  in_front slot slots s s1 s' room p (inr (l, ours, zero_then, split)) =
      elim (Bool-cases (slot.0 == fp)) [
        | inl match ↦
            let grown : s1.foreign_fp_matches ≡ s.foreign_fp_matches + 1 =
              (p.counted room).0 ((==_iff slot.0 fp).0 match) in
            inr (
              l,
              ours,
              (λ u. absurd (omega (arith, zero_then u, grown))),
              record {
                front = slot ∷ split.front;
                bytes = split.bytes;
                back = split.back;
                parts = ap (slot ∷◌) split.parts;
                decoded = split.decoded;
                before = λ u. absurd (omega (arith, zero_then u, grown));
                after = split.after;
              },
            )
        | inr other ↦
            let differs : slot.0 ≢ fp = λ h. cc ((==_iff slot.0 fp).1 h) in
            let kept : s1.foreign_fp_matches ≡ s.foreign_fp_matches = (p.counted room).1 differs in
            inr (
              l,
              ours,
              (λ u. omega (arith, zero_then u, kept)),
              record {
                front = slot ∷ split.front;
                bytes = split.bytes;
                back = split.back;
                parts = ap (slot ∷◌) split.parts;
                decoded = split.decoded;
                before = λ u. (differs, split.before u);
                after = split.after;
              },
            )
      ]

  counted_by_one :
      (slot : ℕ × List ℕ) (s s1 : Scan) (n : ℕ)
      → Passed xxh3_64_with_seed c key fp slot s s1
      → s.foreign_fp_matches + suc n < 2 ^ 32
      → s1.foreign_fp_matches + n < 2 ^ 32
  counted_by_one slot s s1 n p room = elim (Bool-cases (slot.0 == fp)) [
    | inl match ↦ omega (arith, (p.counted (omega arith)).0 ((==_iff slot.0 fp).0 match))
    | inr other ↦ omega (arith, (p.counted (omega arith)).1 (λ h. cc ((==_iff slot.0 fp).1 h)))
  ]

  -- The scan from the key's own slot on.
  from_own :
      (slot : ℕ × List ℕ) (slots : List (ℕ × List ℕ)) (s s1 s' : Scan)
      → s.foreign_seen_before_ours ≡ false
      → Taken xxh3_64_with_seed c key fp slot s s1
      → scan_all xxh3_64_with_seed c key fp slots s1 ≡ ok s'
      → Scanned (slot ∷ slots) s s'
  from_own slot slots s s1 s' seen t e =
      let (ours, kept, rest) = scan_after slots s1 s' t.l (ap (λ r. r.ours) t.result) e in
      let flag : s'.foreign_seen_before_ours ≡ ltb 0 s.foreign_fp_matches =
        kept
        ∙ ap (λ r. r.foreign_seen_before_ours) t.result
        ∙ ap (λ b. b || ltb 0 s.foreign_fp_matches) seen in
      inr (
        t.l,
        ours,
        (λ u. none_before s.foreign_fp_matches (sym flag ∙ u)),
        record {
          front = [];
          bytes = slot.1;
          back = slots;
          parts = ap (λ f. (f, slot.1) ∷ slots) t.fingerprint;
          decoded = t.decoded;
          before = λ u. tt;
          after = rest;
        },
      )
    where
      none_before : (n : ℕ) → ltb 0 n ≡ false → n ≡ 0
      none_before n h = ground arith

  pub scan_none :
      (slots : List (ℕ × List ℕ)) (s s' : Scan)
      → s.ours ≡ none
      → s.foreign_seen_before_ours ≡ false
      → s.foreign_fp_matches + length slots < 2 ^ 32
      → scan_all xxh3_64_with_seed c key fp slots s ≡ ok s'
      → Scanned slots s s'
  unfolding scan_all
  scan_none [] s s' o seen room e =
      let same : s ≡ s' = ok-injective s s' e in rw (← same) (inl (o, tt))
  scan_none (slot ∷ slots) s s' o seen room e =
      let (s1, q, e1) = >>=-eq-ok (scan_slot xxh3_64_with_seed c key fp slot s) _ e in
      elim (step xxh3_64_with_seed c key fp slot s s1 q) [
        | inl p ↦ in_front slot slots s s1 s' (omega arith) p (
            scan_none slots s1 s' (p.ours ∙ o) (p.seen ∙ seen)
              (counted_by_one slot s s1 (length slots) p room) e1)
        | inr t ↦ from_own slot slots s s1 s' seen t e1
      ]
