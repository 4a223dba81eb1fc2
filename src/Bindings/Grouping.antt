-- ===== src/Bindings/Grouping.antt =====
-- What the inventory uses of Rust's standard library: `sort_by`, which is stable, and the entries of a
-- `BTreeMap`.
use whykey.Prelude.{Bool, true, false, List, [], ◌∷◌, ◌++◌, Ordering}
use Prim.Native.Nat.{lt, eq, gt}

abbrev pub is_eq : Ordering → Bool
is_eq lt = false
is_eq eq = true
is_eq gt = false

-- The groups in the order of their keys, each with its values in the order that they came in.
abbrev pub Groups : Type 0 → Type 0 → Type 0
Groups A K = List (K × List A)

module _ {A K : Type 0} (cmp : K → K → Ordering) (key : A → K) where
  unfoldable pub insert : A → List A → List A
  insert x [] = x ∷ []
  insert x (y ∷ ys) = elim (cmp (key x) (key y)) [
    | lt ↦ x ∷ y ∷ ys
    | eq ↦ x ∷ y ∷ ys
    | gt ↦ y ∷ insert x ys
  ]

  unfoldable pub sort : List A → List A
  unfolding insert
  sort [] = []
  sort (x ∷ xs) = insert x (sort xs)

  -- `entry(key).or_default().push(x)`
  unfoldable pub push_group : A → Groups A K → Groups A K
  push_group x [] = (key x, x ∷ []) ∷ []
  push_group x ((j, xs) ∷ rest) = elim (cmp (key x) j) [
    | lt ↦ (key x, x ∷ []) ∷ (j, xs) ∷ rest
    | eq ↦ (j, xs ++ x ∷ []) ∷ rest
    | gt ↦ (j, xs) ∷ push_group x rest
  ]

  unfoldable pub push_groups : Groups A K → List A → Groups A K
  unfolding push_group
  push_groups groups [] = groups
  push_groups groups (x ∷ xs) = push_groups (push_group x groups) xs

  -- The values of a key, in their order.
  unfoldable pub members : K → List A → List A
  members k [] = []
  members k (x ∷ xs) = elim (is_eq (cmp (key x) k)) [
    | true ↦ x ∷ members k xs
    | false ↦ members k xs
  ]
