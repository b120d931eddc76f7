-- ===== src/Proto/Delta/Stages.antt =====
-- Coalescing in stages: the deltas of a prefix may be coalesced first.
use private_eth_getbalance_w.Prelude.{
  ℕ, suc, ◌≡◌, refl, sym, ◌∙◌, ap, arith, List, [], ◌∷◌, ◌++◌, All, length, length-map,
  length-replicate,
}
use private_eth_getbalance_w.Prelude.{ok, >>=-eq-ok, ok-injective}
use private_eth_getbalance_w.Prelude.Int.{◌+ℤ◌, zero-+ℤ, +ℤ_assoc}
use private_eth_getbalance_w.Proto.Delta.{
  BlockDelta, SegmentRowDeltas, SegmentMap, add_segments, add_deltas, add_rows, emit_rows,
  last_block, coalesce,
}
use private_eth_getbalance_w.Proto.Delta.Sums.{segments_at, run_at}
use private_eth_getbalance_w.Proto.Delta.Canonical.{IsCanonical}
use private_eth_getbalance_w.Proto.Delta.Unique.{canonical_unique}
use private_eth_getbalance_w.Proto.Delta.Coalesce.{parts_of, coalesce_sum, coalesce-IsCanonical}

length-add_segments :
    (acc acc' : List SegmentMap) (segs : List SegmentRowDeltas)
    → add_segments acc segs ≡ ok acc'
    → length acc' ≡ length acc
unfolding add_segments
length-add_segments acc acc' [] e = ap length (sym (ok-injective acc acc' e))
length-add_segments [] acc' (seg ∷ segs) e = cc
length-add_segments (m ∷ acc) acc' (seg ∷ segs) e =
    let (m', q1, e1) = >>=-eq-ok (add_rows m seg) _ e in
    let (tail, q2, e2) = >>=-eq-ok (add_segments acc segs) _ e1 in
    ap length (sym (ok-injective (m' ∷ tail) acc' e2))
    ∙ ap suc (length-add_segments acc tail segs q2)

length-add_deltas :
    (acc acc' : List SegmentMap) (ds : List BlockDelta)
    → add_deltas acc ds ≡ ok acc'
    → length acc' ≡ length acc
unfolding add_deltas
length-add_deltas acc acc' [] e = ap length (sym (ok-injective acc acc' e))
length-add_deltas acc acc' (d ∷ ds) e =
    let (mid, q1, e1) = >>=-eq-ok (add_segments acc d.per_segment) _ e in
    length-add_deltas mid acc' ds e1 ∙ length-add_segments acc mid d.per_segment q1

-- The result has as many segments as the first delta.
pub length-coalesce :
    (first : BlockDelta) (ds : List BlockDelta) (d : BlockDelta)
    → coalesce (first ∷ ds) ≡ ok d
    → length d.per_segment ≡ length first.per_segment
length-coalesce first ds d e =
    let p = parts_of first ds d e in
    rw (p.emitted) (
      length-map p.acc emit_rows
      ∙ length-add_deltas _ p.acc (first ∷ ds) p.added
      ∙ length-replicate (length first.per_segment) [])

segments_unique :
    (xs ys : List SegmentRowDeltas)
    → length xs ≡ length ys
    → All IsCanonical xs
    → All IsCanonical ys
    → ((s r o : ℕ) → segments_at s r o xs ≡ segments_at s r o ys)
    → xs ≡ ys
unfolding segments_at
segments_unique [] [] n a b h = refl
segments_unique [] (y ∷ ys) n a b h = absurd (omega arith)
segments_unique (x ∷ xs) [] n a b h = absurd (omega arith)
segments_unique (x ∷ xs) (y ∷ ys) n a b h =
    let first : x ≡ y = canonical_unique x y a.0 b.0 (λ r o. h 0 r o) in
    let others : xs ≡ ys = segments_unique xs ys (omega arith) a.1 b.1 (λ s r o. h (suc s) r o) in
    λ i. first i ∷ others i

run_at-append :
    (s r o : ℕ) (xs ys : List BlockDelta)
    → run_at s r o (xs ++ ys) ≡ run_at s r o xs +ℤ run_at s r o ys
unfolding run_at
run_at-append s r o [] ys = sym (zero-+ℤ (run_at s r o ys))
run_at-append s r o (x ∷ xs) ys = rw (run_at-append s r o xs ys) (sym (+ℤ_assoc _ _ _))

last_block_append :
    (x y : BlockDelta) (xs ys : List BlockDelta) → last_block x (xs ++ y ∷ ys) ≡ last_block y ys
last_block_append x y [] ys = refl
last_block_append x y (z ∷ xs) ys = last_block_append z y xs ys

-- Coalescing a prefix of a run first, and the result with the rest, gives what coalescing the whole
-- run gives, where all three succeed.
pub coalesce_stages :
    (first next : BlockDelta) (ds es : List BlockDelta) (d a d' : BlockDelta)
    → coalesce (first ∷ (ds ++ next ∷ es)) ≡ ok d
    → coalesce (first ∷ ds) ≡ ok a
    → coalesce (a ∷ next ∷ es) ≡ ok d'
    → d ≡ d'
unfolding run_at
coalesce_stages first next ds es d a d' e e1 e2 =
    let (valid, block) = coalesce-IsCanonical first (ds ++ next ∷ es) d e in
    let (valid', block') = coalesce-IsCanonical a (next ∷ es) d' e2 in
    let arity : length d.per_segment ≡ length d'.per_segment =
      length-coalesce first _ d e
      ∙ sym (length-coalesce first ds a e1)
      ∙ sym (length-coalesce a _ d' e2) in
    let cells : d.per_segment ≡ d'.per_segment =
      segments_unique d.per_segment d'.per_segment arity valid valid' (λ s r o.
        coalesce_sum first (ds ++ next ∷ es) d e s r o
        ∙ run_at-append s r o (first ∷ ds) (next ∷ es)
        ∙ rw (← coalesce_sum first ds a e1 s r o) (sym (coalesce_sum a (next ∷ es) d' e2 s r o))) in
    let heads : d.block ≡ d'.block = block ∙ last_block_append first next ds es ∙ sym block' in
    λ i. record { block = heads i; per_segment = cells i }
