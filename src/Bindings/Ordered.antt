-- ===== src/Bindings/Ordered.antt =====
-- src/bindings.rs: the order of the inventory.
use whykey.Prelude.{
  ℕ, zero, suc, ◌≤◌, List, [], ◌∷◌, take, length, ltb, ◌≡◌, refl, sym, arith, Bool-cases, inl, inr,
  ap,
}
use whykey.Bindings.Grouping.{sort, members}
use whykey.Bindings.Grouped.{IsSorted, sort-IsSorted, members-sort}
use whykey.Bindings.Inventory.{
  BindingRecord, Inventory, GroupKey, group_key, compare_group, max_bindings, ordered,
}
use whykey.Bindings.Reported.{compare_group-IsOrder}

take-all : (n : ℕ) (entries : List BindingRecord) → length entries ≤ n → take n entries ≡ entries
take-all zero [] h = refl
take-all zero (e ∷ entries) h = absurd (omega arith)
take-all (suc n) [] h = refl
take-all (suc n) (e ∷ entries) h =
    ap (λ (l : List BindingRecord). e ∷ l) (take-all n entries (omega (arith, h)))

abbrev sorted_records : Inventory → List BindingRecord
sorted_records inventory = sort compare_group group_key inventory.bindings

-- The inventory lists at most the first 8192 records of a list in which no two neighbours are in the
-- wrong order and the records that agree in source, key, context, device and submap stand as they
-- were collected, none of them lost or added.
pub ordered-IsSorted :
    (inventory : Inventory)
    → (sorted : List BindingRecord) × IsSorted compare_group group_key compare_group-IsOrder sorted
      × ((group : GroupKey)
          → members compare_group group_key group sorted
            ≡ members compare_group group_key group inventory.bindings)
      × ((ordered inventory).bindings ≡ take 8192 sorted)
unfolding ordered
ordered-IsSorted inventory = (
  sorted_records inventory,
  sort-IsSorted compare_group group_key compare_group-IsOrder inventory.bindings,
  λ group. members-sort compare_group group_key compare_group-IsOrder group inventory.bindings,
  elim (Bool-cases (ltb max_bindings (length (sorted_records inventory)))) [
    | inl e ↦ rw (ordered, e) refl
    | inr e ↦
        rw (ordered, e) (sym (take-all max_bindings (sorted_records inventory) (ground (arith, e))))
  ],
)
