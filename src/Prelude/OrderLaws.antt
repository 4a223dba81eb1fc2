-- ===== src/Prelude/OrderLaws.antt =====
-- The derived orders are total orders.
use Prim.Native.Nat.{ℕ, compare, Ordering, lt, eq, gt}
use mathlib.Core.Path.{◌≡◌, refl, ap, ap₂, sym, ◌∙◌, subst}
use mathlib.Core.Logic.{◌⊎◌, inl, inr}
use mathlib.Core.List.{[], ◌∷◌}
use mathlib.Core.Option.{Option, none, some}
use native.Mathlib.Omega.{arith}
use whykey.Prelude.Texts.{Text}
use whykey.Prelude.Order.{then_with, compare_text, compare_option, compare_pair, IsOrder}

pub compare-IsOrder : IsOrder compare
compare-IsOrder = record {
  same = λ a. ground arith;
  sound = λ a b h. ground arith;
  flips = λ a b h. ground arith;
  trans = λ a b c h k. ground arith;
}

-- What is known of the parts.
then_with-eq : (x y : Ordering) → then_with x y ≡ eq → (x ≡ eq) × (y ≡ eq)
then_with-eq lt y h = cc
then_with-eq eq y h = (refl, h)
then_with-eq gt y h = cc

then_with-lt : (x y : Ordering) → then_with x y ≡ lt → (x ≡ lt) ⊎ ((x ≡ eq) × (y ≡ lt))
then_with-lt lt y h = inl refl
then_with-lt eq y h = inr (refl, h)
then_with-lt gt y h = cc

then_with-gt : (x y : Ordering) → then_with x y ≡ gt → (x ≡ gt) ⊎ ((x ≡ eq) × (y ≡ gt))
then_with-gt lt y h = cc
then_with-gt eq y h = inr (refl, h)
then_with-gt gt y h = inl refl

first_decides : (x y : Ordering) → x ≡ lt → then_with x y ≡ lt
first_decides x y h = rw h refl

second_decides : (x y z : Ordering) → x ≡ eq → y ≡ z → then_with x y ≡ z
second_decides x y z h k = rw h k

module _ {ℓ} {A : Type ℓ} (cmp : A → A → Ordering) (order : IsOrder cmp) where
  turns : (a b : A) → cmp a b ≡ eq → cmp b a ≡ eq
  turns a b h = subst (λ x. cmp x a ≡ eq) (order.sound a b h) (order.same a)

  -- A comparison of equals may be put before or behind another.
  moves_left : (a b c : A) → cmp a b ≡ eq → (cmp a c ≡ cmp b c)
  moves_left a b c h = ap (λ x. cmp x c) (order.sound a b h)

  moves_right : (a b c : A) → cmp b c ≡ eq → (cmp a c ≡ cmp a b)
  moves_right a b c h = ap (cmp a) (sym (order.sound b c h))

  -- The laws of a comparison by the first parts and then by the second.
  then-flips :
      (a c : A) (x y : Ordering)
      → (x ≡ gt → y ≡ lt)
      → then_with (cmp a c) x ≡ gt
      → then_with (cmp c a) y ≡ lt
  then-flips a c x y turned h = elim (then_with-gt (cmp a c) x h) [
    | inl g ↦ first_decides (cmp c a) y (order.flips a c g)
    | inr (e, g) ↦ second_decides (cmp c a) y lt (turns a c e) (turned g)
  ]

  then_trans :
      (a c e : A) (x y z : Ordering)
      → (x ≡ lt → y ≡ lt → z ≡ lt)
      → then_with (cmp a c) x ≡ lt
      → then_with (cmp c e) y ≡ lt
      → then_with (cmp a e) z ≡ lt
  then_trans a c e x y z chained h k = elim (then_with-lt (cmp a c) x h) [
    | inl g ↦ elim (then_with-lt (cmp c e) y k) [
      | inl j ↦ first_decides (cmp a e) z (order.trans a c e g j)
      | inr (j, _) ↦ first_decides (cmp a e) z (moves_right a c e j ∙ g)
    ]
    | inr (g, x_less) ↦ elim (then_with-lt (cmp c e) y k) [
      | inl j ↦ first_decides (cmp a e) z (moves_left a c e g ∙ j)
      | inr (j, y_less) ↦
          second_decides (cmp a e) z lt (moves_left a c e g ∙ j) (chained x_less y_less)
    ]
  ]

module _ {ℓ κ} {A : Type ℓ} {B : Type κ} (first : A → A → Ordering) (second : B → B → Ordering)
    (one : IsOrder first) (two : IsOrder second) where
  pair-same : (p : A × B) → compare_pair first second p p ≡ eq
  unfolding compare_pair
  pair-same (a, b) = second_decides (first a a) (second b b) eq (one.same a) (two.same b)

  pair_sound : (p q : A × B) → compare_pair first second p q ≡ eq → p ≡ q
  unfolding compare_pair
  pair_sound (a, b) (c, d) h =
      let (e, f) = then_with-eq (first a c) (second b d) h in
      ap₂ (λ (x : A) (y : B). (x, y)) (one.sound a c e) (two.sound b d f)

  pair-flips :
      (p q : A × B) → compare_pair first second p q ≡ gt → compare_pair first second q p ≡ lt
  unfolding compare_pair
  pair-flips (a, b) (c, d) h = then-flips first one a c (second b d) (second d b) (two.flips b d) h

  pair_trans :
      (p q r : A × B)
      → compare_pair first second p q ≡ lt
      → compare_pair first second q r ≡ lt
      → compare_pair first second p r ≡ lt
  unfolding compare_pair
  pair_trans (a, b) (c, d) (e, f) h k =
      then_trans first one a c e (second b d) (second d f) (second b f) (two.trans b d f) h k

  pub compare_pair-IsOrder : IsOrder (compare_pair first second)
  compare_pair-IsOrder = record {
    same = pair-same;
    sound = pair_sound;
    flips = pair-flips;
    trans = pair_trans;
  }

text-same : (s : Text) → compare_text s s ≡ eq
unfolding compare_text
text-same [] = refl
text-same (c ∷ s) =
    second_decides (compare c c) (compare_text s s) eq (compare-IsOrder.same c) (text-same s)

text_sound : (s t : Text) → compare_text s t ≡ eq → s ≡ t
unfolding compare_text
text_sound [] [] h = refl
text_sound [] (d ∷ t) h = cc
text_sound (c ∷ s) [] h = cc
text_sound (c ∷ s) (d ∷ t) h =
    let (e, f) = then_with-eq (compare c d) (compare_text s t) h in
    ap₂ (λ (x : ℕ) (y : Text). x ∷ y) (compare-IsOrder.sound c d e) (text_sound s t f)

text-flips : (s t : Text) → compare_text s t ≡ gt → compare_text t s ≡ lt
unfolding compare_text
text-flips [] [] h = cc
text-flips [] (d ∷ t) h = cc
text-flips (c ∷ s) [] h = refl
text-flips (c ∷ s) (d ∷ t) h =
    then-flips compare compare-IsOrder c d (compare_text s t) (compare_text t s) (text-flips s t) h

text_trans : (s t u : Text) → compare_text s t ≡ lt → compare_text t u ≡ lt → compare_text s u ≡ lt
unfolding compare_text
text_trans [] [] u h k = cc
text_trans (c ∷ s) [] u h k = cc
text_trans s (d ∷ t) [] h k = cc
text_trans [] (d ∷ t) (e ∷ u) h k = refl
text_trans (c ∷ s) (d ∷ t) (e ∷ u) h k =
    then_trans compare compare-IsOrder c d e (compare_text s t) (compare_text t u)
      (compare_text s u) (text_trans s t u) h k

pub compare_text-IsOrder : IsOrder compare_text
compare_text-IsOrder = record {
  same = text-same;
  sound = text_sound;
  flips = text-flips;
  trans = text_trans;
}

module _ {ℓ} {A : Type ℓ} (cmp : A → A → Ordering) (order : IsOrder cmp) where
  option-same : (a : Option A) → compare_option cmp a a ≡ eq
  unfolding compare_option
  option-same none = refl
  option-same (some a) = order.same a

  option_sound : (a b : Option A) → compare_option cmp a b ≡ eq → a ≡ b
  unfolding compare_option
  option_sound none none h = refl
  option_sound none (some b) h = cc
  option_sound (some a) none h = cc
  option_sound (some a) (some b) h = ap some (order.sound a b h)

  option-flips : (a b : Option A) → compare_option cmp a b ≡ gt → compare_option cmp b a ≡ lt
  unfolding compare_option
  option-flips none none h = cc
  option-flips none (some b) h = cc
  option-flips (some a) none h = refl
  option-flips (some a) (some b) h = order.flips a b h

  option_trans :
      (a b c : Option A)
      → compare_option cmp a b ≡ lt
      → compare_option cmp b c ≡ lt
      → compare_option cmp a c ≡ lt
  unfolding compare_option
  option_trans none none c h k = cc
  option_trans (some a) none c h k = cc
  option_trans a (some b) none h k = cc
  option_trans none (some b) (some c) h k = refl
  option_trans (some a) (some b) (some c) h k = order.trans a b c h k

  pub compare_option-IsOrder : IsOrder (compare_option cmp)
  compare_option-IsOrder = record {
    same = option-same;
    sound = option_sound;
    flips = option-flips;
    trans = option_trans;
  }
