-- ===== src/Diff/Values.antt =====
-- What src/diff.rs uses of serde_json: a value's members, and the equality of values.
use whykey.Prelude.{ℕ, zero, suc, Bool, true, Text, List, [], ◌∷◌, Option, none, some, ◌≡◌}

pub record Values (Value : Type 0) : Type 0 where
  pub null : Value
  pub get : Text → Value → Option Value
  pub as_array : Value → Option (List Value)
  pub as_str : Value → Option Text
  pub is_object : Value → Bool
  pub eq : Value → Value → Bool

-- `PartialEq` tells values apart exactly when they differ.
pub record DecidesEq {Value : Type 0} (values : Values Value) : Type 0 where
  pub sound : (a b : Value) → values.eq a b ≡ true → a ≡ b
  pub same : (a : Value) → values.eq a a ≡ true

-- `get(index)`
abbrev pub get_elem {ℓ} : {A : Type ℓ} → ℕ → List A → Option A
get_elem index [] = none
get_elem zero (x ∷ xs) = some x
get_elem (suc index) (x ∷ xs) = get_elem index xs

-- `and_then(|list| list.get(index))`
abbrev pub element {ℓ} : {A : Type ℓ} → ℕ → Option (List A) → Option A
element index none = none
element index (some xs) = get_elem index xs

-- `or_else`, and `and_then`
abbrev pub first_of {ℓ} : {A : Type ℓ} → Option A → Option A → Option A
first_of none other = other
first_of (some x) other = some x

abbrev pub then_get {ℓ κ} : {A : Type ℓ} {B : Type κ} → Option A → (A → Option B) → Option B
then_get none next = none
then_get (some x) next = next x
