-- ===== src/Hyprland/Primary.antt =====
-- src/layers/hyprland/matching.rs: the match that the conclusion describes.
use whykey.Prelude.{
  Bool, true, false, ◌&&◌, List, [], ◌∷◌, Option, none, some, any, find, find_sound, ◌≡◌, refl,
  arith, Option-cases, Bool-cases, inl, inr, &&-true,
}
use whykey.Hyprland.States.{In}
use whykey.Hyprland.Binding.{BindingMatch, is_certain, runs_on_press}
use whykey.Hyprland.Matching.{is_resolved, primary_match}

abbrev fires : BindingMatch → Bool
fires m = is_certain m && runs_on_press m.binding

abbrev has_key : BindingMatch → Bool
has_key m = is_resolved m.certainty

-- The match that is described is one of the matches, of the kind that goes first.
abbrev pub IsPrimary : List BindingMatch → Option BindingMatch → Type 0
IsPrimary matches none = any has_key matches ≡ false
IsPrimary matches (some m) =
    In m matches
    × (has_key m ≡ true)
    × (any is_certain matches ≡ true → is_certain m ≡ true)
    × (any fires matches ≡ true → fires m ≡ true)

any-find : (p : BindingMatch → Bool) (ms : List BindingMatch) → find p ms ≡ none → any p ms ≡ false
unfolding find any
any-find p [] h = refl
any-find p (m ∷ ms) h = ground (arith, any-find p ms)

find-In :
    (p : BindingMatch → Bool) (ms : List BindingMatch) (m : BindingMatch)
    → find p ms ≡ some m
    → In m ms
unfolding find
find-In p [] m h = ground arith
find-In p (n ∷ ms) m h = elim (Bool-cases (p n)) [
  | inl e ↦ inl (grind arith)
  | inr e ↦ inr (find-In p ms m (ground arith))
]

-- What holds of no member holds of no member where less is asked.
any-weaker :
    (p q : BindingMatch → Bool) (ms : List BindingMatch)
    → ((m : BindingMatch) → p m ≡ true → q m ≡ true)
    → any q ms ≡ false
    → any p ms ≡ false
unfolding any
any-weaker p q [] w h = refl
any-weaker p q (m ∷ ms) w h = ground (arith, any-weaker p q ms, w m)

certain_has_key : (m : BindingMatch) → is_certain m ≡ true → has_key m ≡ true
unfolding is_certain
certain_has_key m h = grind arith

fires_certain : (m : BindingMatch) → fires m ≡ true → is_certain m ≡ true
fires_certain m h = (&&-true (is_certain m) _ h).0

-- The match that a conclusion names is one of the matches and has a key that is known; it is certain
-- if any match is, and runs on press if any certain match does. If none is named, no match has a key
-- that is known.
pub primary_match-IsPrimary :
    (matches : List BindingMatch) → IsPrimary matches (primary_match matches)
unfolding primary_match
primary_match-IsPrimary matches = elim (Option-cases (find fires matches)) [
  | inr (m, e) ↦
      let runs = find_sound fires matches m e in
      let sure = fires_certain m runs in
      rw e (find-In fires matches m e, certain_has_key m sure, λ h. sure, λ h. runs)
  | inl e ↦
      let none_fires = any-find fires matches e in
      elim (Option-cases (find is_certain matches)) [
        | inr (m, f) ↦
            let sure = find_sound is_certain matches m f in
            rw (e, f)
              (find-In is_certain matches m f, certain_has_key m sure, λ h. sure, λ h. absurd (cc))
        | inl f ↦
            let none_certain = any-find is_certain matches f in
            elim (Option-cases (find has_key matches)) [
              | inr (m, g) ↦
                  rw (e, f, g)
                    (
                      find-In has_key matches m g,
                      find_sound has_key matches m g,
                      λ h. absurd (cc),
                      λ h. absurd (cc),
                    )
              | inl g ↦ rw (e, f, g) (any-find has_key matches g)
            ]
      ]
]
