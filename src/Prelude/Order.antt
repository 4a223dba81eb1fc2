-- ===== src/Prelude/Order.antt =====
-- `Ord` of Rust's standard library: the derived order of texts, options and tuples.
use Prim.Native.Nat.{compare, Ordering, lt, eq, gt}
use mathlib.Core.Path.{◌≡◌}
use mathlib.Core.List.{[], ◌∷◌}
use mathlib.Core.Option.{Option, none, some}
use whykey.Prelude.Texts.{Text}

-- `Ordering::then_with`
abbrev pub then_with : Ordering → Ordering → Ordering
then_with lt next = lt
then_with eq next = next
then_with gt next = gt

-- The order of bytes in UTF-8 is that of code points.
unfoldable pub compare_text : Text → Text → Ordering
compare_text [] [] = eq
compare_text [] (d ∷ t) = lt
compare_text (c ∷ s) [] = gt
compare_text (c ∷ s) (d ∷ t) = then_with (compare c d) (compare_text s t)

unfoldable pub compare_option {ℓ} :
    {A : Type ℓ} → (A → A → Ordering) → Option A → Option A → Ordering
compare_option cmp none none = eq
compare_option cmp none (some b) = lt
compare_option cmp (some a) none = gt
compare_option cmp (some a) (some b) = cmp a b

unfoldable pub compare_pair {ℓ κ} :
    {A : Type ℓ} {B : Type κ} → (A → A → Ordering) → (B → B → Ordering) → A × B → A × B → Ordering
compare_pair first second (a, b) (c, d) = then_with (first a c) (second b d)

-- What a total order promises.
pub record IsOrder {ℓ} {A : Type ℓ} (cmp : A → A → Ordering) : Type ℓ where
  pub same : (a : A) → cmp a a ≡ eq
  pub sound : (a b : A) → cmp a b ≡ eq → a ≡ b
  pub flips : (a b : A) → cmp a b ≡ gt → cmp b a ≡ lt
  pub trans : (a b c : A) → cmp a b ≡ lt → cmp b c ≡ lt → cmp a c ≡ lt
