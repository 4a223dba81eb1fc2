-- ===== src/Bindings/Grouped.antt =====
-- The stable order of the inventory, and the groups of records with the same key.
use whykey.Prelude.{
  true, false, List, [], ◌∷◌, ◌≡◌, ◌≢◌, ◌⊎◌, inl, inr, refl, sym, ap, ◌∙◌, Bool-cases, Ordering,
  IsOrder,
}
use Prim.Native.Nat.{lt, eq, gt}
use mathlib.Core.Path.{subst}
use whykey.Bindings.Grouping.{insert, sort, is_eq, members}

pub Ordering-cases : (o : Ordering) → (o ≡ lt) ⊎ ((o ≡ eq) ⊎ (o ≡ gt))
Ordering-cases lt = inl refl
Ordering-cases eq = inr (inl refl)
Ordering-cases gt = inr (inr refl)

module _ {A K : Type 0} (cmp : K → K → Ordering) (key : A → K) (order : IsOrder cmp) where
  -- No two neighbours are in the wrong order.
  abbrev pub IsSorted : List A → Type 0
  IsSorted [] = Unit
  IsSorted (x ∷ []) = Unit
  IsSorted (x ∷ y ∷ ys) = (cmp (key x) (key y) ≢ gt) × IsSorted (y ∷ ys)

  insert-front :
      (x y : A) (ys : List A) → cmp (key x) (key y) ≢ gt → insert cmp key x (y ∷ ys) ≡ x ∷ y ∷ ys
  unfolding insert
  insert-front x y ys h = elim (Ordering-cases (cmp (key x) (key y))) [
    | inl e ↦ rw (insert, e) refl
    | inr (inl e) ↦ rw (insert, e) refl
    | inr (inr e) ↦ absurd (h e)
  ]

  insert-behind :
      (x y : A) (ys : List A)
      → cmp (key x) (key y) ≡ gt
      → insert cmp key x (y ∷ ys) ≡ y ∷ insert cmp key x ys
  unfolding insert
  insert-behind x y ys h = rw (insert, h) refl

  in_order : (x y : A) → (cmp (key x) (key y) ≢ gt) ⊎ (cmp (key x) (key y) ≡ gt)
  in_order x y = elim (Ordering-cases (cmp (key x) (key y))) [
    | inl e ↦ inl (λ g. cc)
    | inr (inl e) ↦ inl (λ g. cc)
    | inr (inr e) ↦ inr e
  ]

  turned : (x y : A) → cmp (key x) (key y) ≡ gt → cmp (key y) (key x) ≢ gt
  turned x y h g = cc (order.flips (key x) (key y) h, g)

  insert-IsSorted : (x : A) (ys : List A) → IsSorted ys → IsSorted (insert cmp key x ys)
  unfolding insert
  insert-IsSorted x [] h = tt
  insert-IsSorted x (y ∷ []) h = elim (in_order x y) [
    | inl front ↦ subst IsSorted (sym (insert-front x y [] front)) (front, tt)
    | inr behind ↦ subst IsSorted (sym (insert-behind x y [] behind)) (turned x y behind, tt)
  ]
  insert-IsSorted x (y ∷ z ∷ ys) h =
      let rest = insert-IsSorted x (z ∷ ys) h.1 in
      elim (in_order x y) [
        | inl front ↦ subst IsSorted (sym (insert-front x y (z ∷ ys) front)) (front, h)
        | inr behind ↦
            subst IsSorted (sym (insert-behind x y (z ∷ ys) behind)) (elim (in_order x z) [
              | inl middle ↦
                  let same = insert-front x z ys middle in
                  subst (λ l. IsSorted (y ∷ l)) (sym same)
                    (turned x y behind, subst IsSorted same rest)
              | inr later ↦
                  let same = insert-behind x z ys later in
                  subst (λ l. IsSorted (y ∷ l)) (sym same) (h.0, subst IsSorted same rest)
            ])
      ]

  pub members-hit :
      (k : K) (x : A) (xs : List A)
      → is_eq (cmp (key x) k) ≡ true
      → members cmp key k (x ∷ xs) ≡ x ∷ members cmp key k xs
  unfolding members
  members-hit k x xs h = rw (members, h) refl

  pub members-miss :
      (k : K) (x : A) (xs : List A)
      → is_eq (cmp (key x) k) ≡ false
      → members cmp key k (x ∷ xs) ≡ members cmp key k xs
  unfolding members
  members-miss k x xs h = rw (members, h) refl

  pub members-cons :
      (k : K) (x : A) (xs ys : List A)
      → members cmp key k xs ≡ members cmp key k ys
      → members cmp key k (x ∷ xs) ≡ members cmp key k (x ∷ ys)
  unfolding members
  members-cons k x xs ys h = elim (Bool-cases (is_eq (cmp (key x) k))) [
    | inl e ↦ rw (members, e) (ap (λ l. x ∷ l) h)
    | inr e ↦ rw (members, e) h
  ]

  pub is_eq_sound : (a b : K) → is_eq (cmp a b) ≡ true → a ≡ b
  is_eq_sound a b h = elim (Ordering-cases (cmp a b)) [
    | inl e ↦ absurd (cc (ap is_eq e, h))
    | inr (inl e) ↦ order.sound a b e
    | inr (inr e) ↦ absurd (cc (ap is_eq e, h))
  ]

  -- Values of different keys may change places.
  members-swap :
      (k : K) (x y : A) (ys : List A)
      → cmp (key x) (key y) ≡ gt
      → members cmp key k (y ∷ x ∷ ys) ≡ members cmp key k (x ∷ y ∷ ys)
  members-swap k x y ys h = elim (Bool-cases (is_eq (cmp (key x) k))) [
    | inr e ↦
        members-cons k y (x ∷ ys) ys (members-miss k x ys e) ∙ sym (members-miss k x (y ∷ ys) e)
    | inl e ↦ elim (Bool-cases (is_eq (cmp (key y) k))) [
      | inr f ↦
          members-miss k y (x ∷ ys) f ∙ members-cons k x ys (y ∷ ys) (sym (members-miss k y ys f))
      | inl f ↦
          let same = is_eq_sound (key x) k e ∙ sym (is_eq_sound (key y) k f) in
          absurd (cc (h, order.same (key y), ap (λ c. cmp c (key y)) same))
    ]
  ]

  members-insert :
      (k : K) (x : A) (ys : List A)
      → members cmp key k (insert cmp key x ys) ≡ members cmp key k (x ∷ ys)
  unfolding insert
  members-insert k x [] = refl
  members-insert k x (y ∷ ys) = elim (in_order x y) [
    | inl front ↦ ap (members cmp key k) (insert-front x y ys front)
    | inr behind ↦
        ap (members cmp key k) (insert-behind x y ys behind)
        ∙ members-cons k y (insert cmp key x ys) (x ∷ ys) (members-insert k x ys)
        ∙ members-swap k x y ys behind
  ]

  pub sort-IsSorted : (xs : List A) → IsSorted (sort cmp key xs)
  unfolding sort
  sort-IsSorted [] = tt
  sort-IsSorted (x ∷ xs) = insert-IsSorted x (sort cmp key xs) (sort-IsSorted xs)

  pub members-sort :
      (k : K) (xs : List A) → members cmp key k (sort cmp key xs) ≡ members cmp key k xs
  unfolding sort members
  members-sort k [] = refl
  members-sort k (x ∷ xs) =
      members-insert k x (sort cmp key xs)
      ∙ members-cons k x (sort cmp key xs) xs (members-sort k xs)
