-- ===== src/Bindings/Groups.antt =====
-- The groups of records with the same key.
use whykey.Prelude.{
  true, false, List, [], ◌∷◌, ◌++◌, ◌≡◌, ◌≢◌, ◌↔◌, inl, inr, refl, sym, ap, ◌∙◌, Bool-cases,
  Ordering, IsOrder,
}
use Prim.Native.Nat.{lt, gt}
use mathlib.Core.Path.{subst}
use mathlib.Core.List.{append-nil, append_assoc}
use whykey.Hyprland.States.{In}
use whykey.Bindings.Grouping.{Groups, push_group, push_groups, is_eq, members}
use whykey.Bindings.Grouped.{Ordering-cases, is_eq_sound, members-hit, members-miss}

module _ {A K : Type 0} (cmp : K → K → Ordering) (key : A → K) (order : IsOrder cmp) where
  -- The values that the groups hold for a key.
  unfoldable pub values_of : K → Groups A K → List A
  values_of k [] = []
  values_of k ((j, xs) ∷ groups) = elim (is_eq (cmp j k)) [ true ↦ xs | false ↦ values_of k groups ]

  -- The keys of the groups come one behind the other.
  abbrev Above : K → Groups A K → Type 0
  Above k [] = Unit
  Above k ((j, xs) ∷ groups) = (cmp k j ≡ lt) × Above k groups

  abbrev pub Ascending : Groups A K → Type 0
  Ascending [] = Unit
  Ascending ((j, xs) ∷ groups) = Above j groups × Ascending groups

  Above-trans : (k j : K) (groups : Groups A K) → cmp k j ≡ lt → Above j groups → Above k groups
  Above-trans k j [] h a = tt
  Above-trans k j ((i, xs) ∷ groups) h a = (order.trans k j i h a.0, Above-trans k j groups h a.1)

  -- A key below all others has no values.
  not_eq : (k j : K) → cmp k j ≡ lt → is_eq (cmp j k) ≡ false
  not_eq k j h = elim (Bool-cases (is_eq (cmp j k))) [
    | inr e ↦ e
    | inl e ↦
        let same = is_eq_sound cmp key order j k e in
        absurd (cc (h, order.same j, ap (λ c. cmp c j) same))
  ]

  Above-values : (k : K) (groups : Groups A K) → Above k groups → values_of k groups ≡ []
  unfolding values_of
  Above-values k [] a = refl
  Above-values k ((j, xs) ∷ groups) a = rw (values_of, not_eq k j a.0) (Above-values k groups a.1)

  push_group-Above :
      (k : K) (x : A) (groups : Groups A K)
      → cmp k (key x) ≡ lt
      → Above k groups
      → Above k (push_group cmp key x groups)
  unfolding push_group
  push_group-Above k x [] h a = (h, tt)
  push_group-Above k x ((j, xs) ∷ groups) h a = elim (Ordering-cases (cmp (key x) j)) [
    | inl e ↦ rw (push_group, e) (h, a)
    | inr (inl e) ↦ rw (push_group, e) a
    | inr (inr e) ↦ rw (push_group, e) (a.0, push_group-Above k x groups h a.1)
  ]

  push_group-Ascending :
      (x : A) (groups : Groups A K) → Ascending groups → Ascending (push_group cmp key x groups)
  unfolding push_group
  push_group-Ascending x [] a = (tt, tt)
  push_group-Ascending x ((j, xs) ∷ groups) a = elim (Ordering-cases (cmp (key x) j)) [
    | inl e ↦ rw (push_group, e) ((e, Above-trans (key x) j groups e a.0), a)
    | inr (inl e) ↦ rw (push_group, e) a
    | inr (inr e) ↦
        rw (push_group, e)
          (
            push_group-Above j x groups (order.flips (key x) j e) a.0,
            push_group-Ascending x groups a.1,
          )
  ]

  pub push_groups-Ascending :
      (groups : Groups A K) (xs : List A)
      → Ascending groups
      → Ascending (push_groups cmp key groups xs)
  unfolding push_groups
  push_groups-Ascending groups [] a = a
  push_groups-Ascending groups (x ∷ xs) a =
      push_groups-Ascending (push_group cmp key x groups) xs (push_group-Ascending x groups a)

  pub values-hit :
      (k j : K) (xs : List A) (groups : Groups A K)
      → is_eq (cmp j k) ≡ true
      → values_of k ((j, xs) ∷ groups) ≡ xs
  unfolding values_of
  values-hit k j xs groups h = rw (values_of, h) refl

  pub values-miss :
      (k j : K) (xs : List A) (groups : Groups A K)
      → is_eq (cmp j k) ≡ false
      → values_of k ((j, xs) ∷ groups) ≡ values_of k groups
  unfolding values_of
  values-miss k j xs groups h = rw (values_of, h) refl

  abbrev single : K → A → List A
  single k x = members cmp key k (x ∷ [])

  single-hit : (k : K) (x : A) → is_eq (cmp (key x) k) ≡ true → single k x ≡ x ∷ []
  unfolding members
  single-hit k x h = members-hit cmp key order k x [] h

  single-miss : (k : K) (x : A) → is_eq (cmp (key x) k) ≡ false → single k x ≡ []
  unfolding members
  single-miss k x h = members-miss cmp key order k x [] h

  -- A group of the value alone.
  values-new :
      (k : K) (x : A) (groups : Groups A K)
      → Above (key x) groups
      → values_of k ((key x, x ∷ []) ∷ groups) ≡ values_of k groups ++ single k x
  values-new k x groups a = elim (Bool-cases (is_eq (cmp (key x) k))) [
    | inl e ↦
        let none_yet =
          subst (λ j. values_of j groups ≡ []) (is_eq_sound cmp key order (key x) k e)
            (Above-values (key x) groups a) in
        values-hit k (key x) (x ∷ []) groups e ∙ sym (rw none_yet (single-hit k x e))
    | inr e ↦
        values-miss k (key x) (x ∷ []) groups e
        ∙ sym (rw (single-miss k x e) (append-nil (values_of k groups)))
  ]

  values-joined :
      (k j : K) (x : A) (xs : List A) (groups : Groups A K)
      → key x ≡ j
      → values_of k ((j, xs ++ x ∷ []) ∷ groups) ≡ values_of k ((j, xs) ∷ groups) ++ single k x
  values-joined k j x xs groups same = elim (Bool-cases (is_eq (cmp j k))) [
    | inl e ↦
        let also = subst (λ i. is_eq (cmp i k) ≡ true) (sym same) e in
        values-hit k j (xs ++ x ∷ []) groups e
        ∙ sym (rw (values-hit k j xs groups e, single-hit k x also) refl)
    | inr e ↦
        let also = subst (λ i. is_eq (cmp i k) ≡ false) (sym same) e in
        values-miss k j (xs ++ x ∷ []) groups e
        ∙ sym (
            rw (values-miss k j xs groups e, single-miss k x also)
              (append-nil (values_of k groups)))
  ]

  -- A value is put behind those of its key.
  values-push_group :
      (k : K) (x : A) (groups : Groups A K)
      → Ascending groups
      → values_of k (push_group cmp key x groups) ≡ values_of k groups ++ single k x
  unfolding push_group
  values-push_group k x [] a = values-new k x [] tt
  values-push_group k x ((j, xs) ∷ groups) a = elim (Ordering-cases (cmp (key x) j)) [
    | inl e ↦
        rw (push_group, e)
          (values-new k x ((j, xs) ∷ groups) (e, Above-trans (key x) j groups e a.0))
    | inr (inl e) ↦ rw (push_group, e) (values-joined k j x xs groups (order.sound (key x) j e))
    | inr (inr e) ↦
        rw (push_group, e)
          (elim (Bool-cases (is_eq (cmp j k))) [
            | inl f ↦
                let other = subst (λ i. cmp (key x) i ≡ gt) (is_eq_sound cmp key order j k f) e in
                values-hit k j xs (push_group cmp key x groups) f
                ∙ sym (
                    rw (values-hit k j xs groups f, single-miss k x (rw other refl))
                      (append-nil xs))
            | inr f ↦
                values-miss k j xs (push_group cmp key x groups) f
                ∙ values-push_group k x groups a.1
                ∙ sym (rw (values-miss k j xs groups f) refl)
          ])
  ]

  members-append :
      (k : K) (x : A) (xs : List A)
      → single k x ++ members cmp key k xs ≡ members cmp key k (x ∷ xs)
  members-append k x xs = elim (Bool-cases (is_eq (cmp (key x) k))) [
    | inl e ↦ rw (single-hit k x e) (sym (members-hit cmp key order k x xs e))
    | inr e ↦ rw (single-miss k x e) (sym (members-miss cmp key order k x xs e))
  ]

  pub values-push_groups :
      (k : K) (groups : Groups A K) (xs : List A)
      → Ascending groups
      → values_of k (push_groups cmp key groups xs) ≡ values_of k groups ++ members cmp key k xs
  unfolding push_groups members
  values-push_groups k groups [] a = sym (append-nil (values_of k groups))
  values-push_groups k groups (x ∷ xs) a =
      values-push_groups k (push_group cmp key x groups) xs (push_group-Ascending x groups a)
      ∙ ap (λ (l : List A). l ++ members cmp key k xs) (values-push_group k x groups a)
      ∙ append_assoc (values_of k groups) (single k x) (members cmp key k xs)
      ∙ ap (λ (l : List A). values_of k groups ++ l) (members-append k x xs)

  -- What the groups hold for a key is the group of the key, and each group is that of its key.
  Above-In :
      (k j : K) (xs : List A) (groups : Groups A K)
      → Above k groups
      → In (j, xs) groups
      → cmp k j ≡ lt
  Above-In k j xs [] a i = absurd i
  Above-In k j xs ((h, ys) ∷ groups) a (inl e) =
      subst (λ (p : K × List A). cmp k p.0 ≡ lt) (sym e) a.0
  Above-In k j xs ((h, ys) ∷ groups) a (inr i) = Above-In k j xs groups a.1 i

  pub In-values :
      (j : K) (xs : List A) (groups : Groups A K)
      → Ascending groups
      → In (j, xs) groups
      → values_of j groups ≡ xs
  In-values j xs [] a i = absurd i
  In-values j xs ((h, ys) ∷ groups) a (inl e) =
      subst (λ (p : K × List A). values_of p.0 ((h, ys) ∷ groups) ≡ p.1) (sym e)
        (values-hit h h ys groups (rw (order.same h) refl))
  In-values j xs ((h, ys) ∷ groups) a (inr i) =
      values-miss j h ys groups (rw (Above-In h j xs groups a.0 i) refl)
      ∙ In-values j xs groups a.1 i

  pub values-In :
      (k : K) (groups : Groups A K) → values_of k groups ≢ [] → In (k, values_of k groups) groups
  unfolding values_of
  values-In k [] h = absurd (h refl)
  values-In k ((j, xs) ∷ groups) h = elim (Bool-cases (is_eq (cmp j k))) [
    | inl e ↦
        subst (λ l. In (k, l) ((j, xs) ∷ groups)) (sym (values-hit k j xs groups e))
          (inl (ap (λ (i : K). (i, xs)) (sym (is_eq_sound cmp key order j k e))))
    | inr e ↦
        let same = values-miss k j xs groups e in
        subst (λ l. In (k, l) ((j, xs) ∷ groups)) (sym same)
          (inr (values-In k groups (λ z. h (same ∙ z))))
  ]

  not_missed : (y x : A) (k : K) → is_eq (cmp (key y) k) ≡ false → x ≡ y → key x ≡ k → ⊥
  not_missed y x k e h of_key =
      let found : is_eq (cmp (key y) k) ≡ true =
        subst (λ z. is_eq (cmp z k) ≡ true) (sym (ap key (sym h) ∙ of_key))
          (rw (order.same k) refl) in
      cc (e, found)

  pub members-In :
      (k : K) (x : A) (xs : List A) → In x (members cmp key k xs) ↔ (In x xs × (key x ≡ k))
  unfolding members
  members-In k x [] = (λ i. absurd i, λ h. absurd h.0)
  members-In k x (y ∷ xs) = elim (Bool-cases (is_eq (cmp (key y) k))) [
    | inl e ↦
        let same = is_eq_sound cmp key order (key y) k e in
        rw (members, e)
          (
            λ i. elim i [
              | inl h ↦ (inl h, ap key h ∙ same)
              | inr h ↦ let (there, of_key) = (members-In k x xs).0 h in (inr there, of_key)
            ],
            λ both. elim both.0 [ inl h ↦ inl h | inr h ↦ inr ((members-In k x xs).1 (h, both.1)) ],
          )
    | inr e ↦
        rw (members, e)
          (
            λ h. let (there, of_key) = (members-In k x xs).0 h in (inr there, of_key),
            λ both. elim both.0 [
              | inl h ↦ absurd (not_missed y x k e h both.1)
              | inr h ↦ (members-In k x xs).1 (h, both.1)
            ],
          )
  ]
