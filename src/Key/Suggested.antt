-- ===== src/Key/Suggested.antt =====
-- src/key.rs: what is known of the key that is suggested.
use whykey.Prelude.{
  ℕ, suc, ◌≤◌, true, false, Text, List, [], ◌∷◌, Option, none, some, length, leb, ◌≡◌, inl, inr,
  refl, sym, ap, arith, Bool-cases,
}
use mathlib.Core.Path.{subst}
use whykey.Hyprland.States.{In}
use whykey.Key.Names.{echo_limit}
use whykey.Key.Distance.{edit_distance}
use whykey.Key.Suggestion.{
  Candidate, key_candidates, nearest, greatest_distance, near_enough, nearer, Measured, with_nearer,
  suggestion,
}

-- No candidate of the list is nearer.
abbrev pub NoneNearer : Text → ℕ → List Candidate → Type 0
NoneNearer lowered distance list =
    (other : Candidate) → In other list → distance ≤ edit_distance lowered other.0

-- The candidate stands in the list, at the distance, and none is nearer.
abbrev pub Nearest : Text → ℕ → Text → List Candidate → Type 0
Nearest lowered distance shown list =
    (matched : Text) × In (matched, shown) list
    × (edit_distance lowered matched ≡ distance)
    × NoneNearer lowered distance list

at_most : {a b c : ℕ} → leb a b ≡ true → b ≤ c → a ≤ c
at_most h k = ground arith

below : {a b c : ℕ} → leb a b ≡ false → c ≡ a → b ≤ c
below h e = ground arith

at_same : {a b : ℕ} → a ≡ b → b ≤ a
at_same e = ground arith

nearer-first : (m best : Measured) → leb m.0 best.0 ≡ true → nearer m best ≡ m
unfolding nearer
nearer-first m best h = rw h refl

nearer-later : (m best : Measured) → leb m.0 best.0 ≡ false → nearer m best ≡ best
unfolding nearer
nearer-later m best h = rw h refl

Nearest-first :
    (lowered matched shown : Text) (rest : List Candidate) (least : ℕ)
    → leb (edit_distance lowered matched) least ≡ true
    → NoneNearer lowered least rest
    → Nearest lowered (edit_distance lowered matched) shown ((matched, shown) ∷ rest)
Nearest-first lowered matched shown rest least near none_nearer = (
  matched,
  inl refl,
  refl,
  λ other i. elim i [
    | inl same ↦ at_same (ap (λ (c : Candidate). edit_distance lowered c.0) same)
    | inr later ↦ at_most near (none_nearer other later)
  ],
)

Nearest-later :
    (lowered matched shown : Text) (rest : List Candidate) (least : ℕ) (best : Text)
    → leb (edit_distance lowered matched) least ≡ false
    → Nearest lowered least best rest
    → Nearest lowered least best ((matched, shown) ∷ rest)
Nearest-later lowered matched shown rest least best far (found, present, measured, none_nearer) = (
  found,
  inr present,
  measured,
  λ other i. elim i [
    | inl same ↦ below far (ap (λ (c : Candidate). edit_distance lowered c.0) same)
    | inr later ↦ none_nearer other later
  ],
)

Nearest-nearer :
    (lowered matched shown : Text) (rest : List Candidate) (best : Measured)
    → Nearest lowered best.0 best.1 rest
    → Nearest lowered
        (nearer (edit_distance lowered matched, shown) best).0
        (nearer (edit_distance lowered matched, shown) best).1
        ((matched, shown) ∷ rest)
Nearest-nearer lowered matched shown rest best h =
    elim (Bool-cases (leb (edit_distance lowered matched) best.0)) [
      | inl near ↦
          subst (λ (n : Measured). Nearest lowered n.0 n.1 ((matched, shown) ∷ rest))
            (sym (nearer-first (edit_distance lowered matched, shown) best near))
            (Nearest-first lowered matched shown rest best.0 near h.3)
      | inr far ↦
          subst (λ (n : Measured). Nearest lowered n.0 n.1 ((matched, shown) ∷ rest))
            (sym (nearer-later (edit_distance lowered matched, shown) best far))
            (Nearest-later lowered matched shown rest best.0 best.1 far h)
    ]

-- What the search answers on a list: nothing on the empty list only, else the nearest candidate.
abbrev pub NearestOf : Text → Option Measured → List Candidate → Type 0
NearestOf lowered none list = list ≡ []
NearestOf lowered (some best) list = Nearest lowered best.0 best.1 list

NearestOf-with :
    (lowered matched shown : Text) (rest : List Candidate) (found : Option Measured)
    → NearestOf lowered found rest
    → NearestOf lowered
        (some (with_nearer (edit_distance lowered matched, shown) found))
        ((matched, shown) ∷ rest)
NearestOf-with lowered matched shown rest none h = (
  matched,
  inl refl,
  refl,
  λ other i. elim i [
    | inl same ↦ at_same (ap (λ (c : Candidate). edit_distance lowered c.0) same)
    | inr later ↦ absurd (subst (In other) h later)
  ],
)
NearestOf-with lowered matched shown rest (some best) h =
    Nearest-nearer lowered matched shown rest best h

nearest-NearestOf :
    (lowered : Text) (list : List Candidate) → NearestOf lowered (nearest lowered list) list
unfolding nearest
nearest-NearestOf lowered [] = refl
nearest-NearestOf lowered ((matched, shown) ∷ rest) =
    NearestOf-with lowered matched shown rest (nearest lowered rest)
      (nearest-NearestOf lowered rest)

-- What is suggested: nothing when every candidate is too far, else a nearest one that is not.
abbrev pub Suggests : Text → List Candidate → Option Text → Type 0
Suggests lowered list none = NoneNearer lowered (suc (greatest_distance lowered)) list
Suggests lowered list (some shown) =
    (distance : ℕ) × Nearest lowered distance shown list × (distance ≤ greatest_distance lowered)

leb-≤ : {a b : ℕ} → leb a b ≡ true → a ≤ b
leb-≤ h = ground arith

beyond : {a b c : ℕ} → leb a b ≡ false → a ≤ c → suc b ≤ c
beyond h k = ground arith

near_enough-near :
    (lowered : Text) (distance : ℕ) (shown : Text)
    → leb distance (greatest_distance lowered) ≡ true
    → near_enough lowered (some (distance, shown)) ≡ some shown
near_enough-near lowered distance shown h = rw h refl

near_enough-far :
    (lowered : Text) (distance : ℕ) (shown : Text)
    → leb distance (greatest_distance lowered) ≡ false
    → near_enough lowered (some (distance, shown)) ≡ none
near_enough-far lowered distance shown h = rw h refl

suggestion-short :
    (to_lowercase : Text → Text) (inventory raw : Text)
    → length raw ≤ echo_limit
    → suggestion to_lowercase inventory raw
      ≡ near_enough (to_lowercase raw) (nearest (to_lowercase raw) (key_candidates inventory))
unfolding suggestion
suggestion-short to_lowercase inventory raw short = ground arith

near_enough-Suggests :
    (lowered : Text) (list : List Candidate) (found : Option Measured)
    → NearestOf lowered found list
    → Suggests lowered list (near_enough lowered found)
near_enough-Suggests lowered list none h = λ other i. absurd (subst (In other) h i)
near_enough-Suggests lowered list (some (distance, shown))
      (matched, present, measured, none_nearer) =
    elim (Bool-cases (leb distance (greatest_distance lowered))) [
      | inl near ↦
          subst (Suggests lowered list) (sym (near_enough-near lowered distance shown near))
            (distance, (matched, present, measured, none_nearer), leb-≤ near)
      | inr far ↦
          subst (Suggests lowered list) (sym (near_enough-far lowered distance shown far))
            (λ other i. beyond far (none_nearer other i))
    ]

-- For a name of at most 64 characters, with whatever table of keysyms: what is suggested is what
-- a candidate shows whose edit distance to the name in lower case is the least of all candidates
-- and at most half of the lower-case name's length (at least 1); and if nothing is suggested,
-- every candidate is farther than that.
pub suggestion-Suggests :
    (to_lowercase : Text → Text) (inventory raw : Text)
    → length raw ≤ echo_limit
    → Suggests (to_lowercase raw) (key_candidates inventory) (suggestion to_lowercase inventory raw)
suggestion-Suggests to_lowercase inventory raw short =
    subst (Suggests (to_lowercase raw) (key_candidates inventory))
      (sym (suggestion-short to_lowercase inventory raw short))
      (near_enough-Suggests (to_lowercase raw) (key_candidates inventory)
        (nearest (to_lowercase raw) (key_candidates inventory))
        (nearest-NearestOf (to_lowercase raw) (key_candidates inventory)))
