-- ===== src/Diff/Loops.antt =====
-- The loops over the indices of two lists.
use whykey.Prelude.{
  ℕ, zero, suc, ◌+◌, ◌≤◌, ◌<◌, List, [], ◌∷◌, ◌++◌, Option, none, some, ◌≡◌, ◌↔◌, ◌⊎◌, inl, inr,
  refl, arith, length,
}
use mathlib.Core.Path.{subst}
use whykey.Diff.Values.{get_elem, element}
use whykey.Diff.Compare.{each, length_or_zero, longer}

pub append-empty {ℓ} : {A : Type ℓ} (xs ys : List A) → ((xs ++ ys) ≡ []) ↔ ((xs ≡ []) × (ys ≡ []))
append-empty [] ys = (λ h. (refl, h), λ h. h.1)
append-empty (x ∷ xs) ys = (λ h. cc h, λ h. cc h.0)

pub first_or_later : (index i : ℕ) → index ≤ i → (index ≡ i) ⊎ (suc index ≤ i)
first_or_later index i h = ground arith

-- A loop finds nothing exactly when none of its rounds does.
pub each-empty {ℓ} :
    {A : Type ℓ} (body : ℕ → List A) (index n : ℕ)
    → (each body index n ≡ []) ↔ ((i : ℕ) → index ≤ i → i < index + n → body i ≡ [])
each-empty body index zero = (λ h i le lt. absurd (omega (arith, le, lt)), λ h. refl)
each-empty body index (suc n) =
    let rest = each-empty body (suc index) n in
    let both = append-empty (body index) (each body (suc index) n) in
    (
      λ h i le lt. elim (first_or_later index i le) [
        | inl e ↦ subst (λ j. body j ≡ []) e (both.0 h).0
        | inr later ↦ rest.0 (both.0 h).1 i later (omega (arith, lt))
      ],
      λ h. both.1 (
        h index (omega arith) (omega arith),
        rest.1 (λ i le lt. h i (omega (arith, le)) (omega (arith, lt))),
      ),
    )

get_elem-beyond {ℓ} : {A : Type ℓ} (i : ℕ) (xs : List A) → length xs ≤ i → get_elem i xs ≡ none
get_elem-beyond i [] h = refl
get_elem-beyond zero (x ∷ xs) h = absurd (omega (arith, h))
get_elem-beyond (suc i) (x ∷ xs) h = get_elem-beyond i xs (omega (arith, h))

pub element-beyond {ℓ} :
    {A : Type ℓ} (i : ℕ) (xs : Option (List A)) → length_or_zero xs ≤ i → element i xs ≡ none
element-beyond i none h = refl
element-beyond i (some xs) h = get_elem-beyond i xs h

pub longer-left : (a b : ℕ) → a ≤ longer a b
longer-left a b = ground arith

pub longer-right : (a b : ℕ) → b ≤ longer a b
longer-right a b = ground arith
