-- ===== src/Server/RisePir/Apply/Counts.antt =====
-- The counts of a block's report: each change and each credit is one store operation or none.
use private_eth_getbalance_w.Prelude.{
  ℕ, ◌+◌, ◌^◌, ◌<◌, ◌≡◌, refl, ap, arith, List, [], ◌∷◌, Outcome, ok, err, panic, length,
  ok-injective,
}
use private_eth_getbalance_w.Proto.Delta.{AddressHash, Balance}
use private_eth_getbalance_w.Proto.Value.{ValueCodec}
use private_eth_getbalance_w.Server.RisePir.{
  ServerError, ChangeKind, kind_insert, kind_update, kind_delete, noop_delete, BlockApplyReport,
  Cuckoo, Action, and_then, count, apply_change, apply_changes, credited, apply_credits,
}

pub and_then-eq-ok :
    {S A B : Type 0} (run : Outcome ServerError A × S) (next : A → Action S B) (result : B)
    (last : S)
    → and_then run next ≡ (ok result, last)
    → (a : A) × (store : S) × (run ≡ (ok a, store)) × (next a store ≡ (ok result, last))
and_then-eq-ok (ok a, store) next result last h = (a, store, refl, h)
and_then-eq-ok (err e, store) next result last h = absurd (cc (ap (λ p. p.0) h))
and_then-eq-ok (panic, store) next result last h = absurd (cc (ap (λ p. p.0) h))

-- All that a report counts by kind.
abbrev pub total : BlockApplyReport → ℕ
total r = r.inserts + r.updates + r.deletes + r.noop_deletes

count_total :
    (kind : ChangeKind) (r : BlockApplyReport)
    → total r + 1 < 2 ^ 64
    → total (count kind r) ≡ total r + 1
count_total kind_insert r h = omega arith
count_total kind_update r h = omega arith
count_total kind_delete r h = omega arith
count_total noop_delete r h = omega arith

module _ (xxh3_64_with_seed : AddressHash → ℕ → ℕ) {S : Type 0} (cuckoo : Cuckoo S)
    (codec : ValueCodec) where
  pub apply_changes-total :
      (changes : List (AddressHash × Balance)) (r r' : BlockApplyReport) (store store' : S)
      → total r + length changes < 2 ^ 64
      → apply_changes xxh3_64_with_seed cuckoo codec changes r store ≡ (ok r', store')
      → total r' ≡ total r + length changes
  unfolding apply_changes
  apply_changes-total [] r r' store store' h e =
      let at : r ≡ r' = ok-injective r r' (ap (λ p. p.0) e) in omega (arith, ap total at)
  apply_changes-total (change ∷ changes) r r' store store' h e =
      let (kind, mid, first, rest) =
        and_then-eq-ok (apply_change xxh3_64_with_seed cuckoo codec change store)
          (λ kind. apply_changes xxh3_64_with_seed cuckoo codec changes (count kind r)) r' store'
          e in
      let one = count_total kind r (omega arith) in
      omega (
        arith,
        one,
        apply_changes-total changes (count kind r) r' mid store' (omega (arith, one)) rest,
      )

  pub apply_credits-total :
      (credits : List (AddressHash × Balance)) (r r' : BlockApplyReport) (store store' : S)
      → total r + length credits < 2 ^ 64
      → apply_credits xxh3_64_with_seed cuckoo codec credits r store ≡ (ok r', store')
      → total r' ≡ total r + length credits
  unfolding apply_credits
  apply_credits-total [] r r' store store' h e =
      let at : r ≡ r' = ok-injective r r' (ap (λ p. p.0) e) in omega (arith, ap total at)
  apply_credits-total (credit ∷ credits) r r' store store' h e =
      let (balance, at, read, then) =
        and_then-eq-ok (credited xxh3_64_with_seed cuckoo codec credit store, store)
          (λ balance store.
            and_then (apply_change xxh3_64_with_seed cuckoo codec (credit.0, balance) store)
              (λ kind. apply_credits xxh3_64_with_seed cuckoo codec credits (count kind r)))
          r' store' e in
      let (kind, mid, first, rest) =
        and_then-eq-ok (apply_change xxh3_64_with_seed cuckoo codec (credit.0, balance) at)
          (λ kind. apply_credits xxh3_64_with_seed cuckoo codec credits (count kind r)) r' store'
          then in
      let one = count_total kind r (omega arith) in
      omega (
        arith,
        one,
        apply_credits-total credits (count kind r) r' mid store' (omega (arith, one)) rest,
      )
