-- ===== src/Server/RisePir/Geometry.antt =====
-- The geometry of the store and the width of its values, which no operation changes.
use private_eth_getbalance_w.Prelude.{ℕ, ◌≡◌, refl, ◌∙◌, List, []}
use private_eth_getbalance_w.Proto.Delta.{AddressHash, Balance}
use private_eth_getbalance_w.Proto.Value.{ValueCodec}
use private_eth_getbalance_w.Server.Fold.{CuckooParams}
use private_eth_getbalance_w.Server.RisePir.Kept.{kept-apply_updates}
use private_eth_getbalance_w.Server.RisePir.{
  BlockApplyReport, Cuckoo, and_then, apply_changes, apply_credits,
}

module _ {S : Type 0} (cuckoo : Cuckoo S) where
  abbrev pub geometry : S → CuckooParams × ℕ
  geometry store = (cuckoo.params store, cuckoo.value_size_in_bytes store)

  -- The store's operations keep its geometry, and draining its log empties the log.
  pub record IsLawful : Type 0 where
    pub insert :
        (addr : AddressHash) (value : List ℕ) (s : S)
        → geometry (cuckoo.insert addr value s).1 ≡ geometry s
    pub update :
        (addr : AddressHash) (value : List ℕ) (s : S)
        → geometry (cuckoo.update addr value s).1 ≡ geometry s
    pub delete : (addr : AddressHash) (s : S) → geometry (cuckoo.delete addr s).1 ≡ geometry s
    pub enable : (s : S) → geometry (cuckoo.enable_mutation_log s) ≡ geometry s
    pub drain : (s : S) → geometry (cuckoo.drain_mutations s).1 ≡ geometry s
    pub drained : (s : S) → (cuckoo.drain_mutations (cuckoo.drain_mutations s).1).0 ≡ []

module _ (xxh3_64_with_seed : AddressHash → ℕ → ℕ) {S : Type 0} (cuckoo : Cuckoo S)
    (codec : ValueCodec) (law : IsLawful cuckoo) where
  pub geometry-apply_updates :
      (changes credits : List (AddressHash × Balance)) (r : BlockApplyReport) (s : S)
      → geometry cuckoo
          (and_then
            (apply_changes xxh3_64_with_seed cuckoo codec changes r s)
            (apply_credits xxh3_64_with_seed cuckoo codec credits)).1
        ≡ geometry cuckoo s
  geometry-apply_updates changes credits r s =
      kept-apply_updates xxh3_64_with_seed cuckoo codec
        (λ store. geometry cuckoo store ≡ geometry cuckoo s)
        (record {
          insert = λ addr value store h. law.insert addr value store ∙ h;
          update = λ addr value store h. law.update addr value store ∙ h;
          delete = λ addr store h. law.delete addr store ∙ h;
        })
        changes credits r s refl
