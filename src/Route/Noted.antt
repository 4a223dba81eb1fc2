-- ===== src/Route/Noted.antt =====
-- src/layers/inspection.rs: what the note on stale evidence changes.
use whykey.Prelude.{
  Bool, true, false, ◌||◌, Text, text, List, [], ◌∷◌, ◌++◌, any, ◌≡◌, ◌⊎◌, refl, ap, Bool-cases,
  inl, inr, arith, not, ◌&&◌, &&-true, Option, none, some, ◌≢◌, ◌↔◌, text_eq, text_eq_sound,
  text_eq_refl, if◌then◌else◌,
}
use mathlib.Core.Path.{subst}
use whykey.Hyprland.States.{In}
use whykey.Route.Model.{LayerResult}
use whykey.Route.Remap.{with_detail}
use whykey.Route.Stale.{
  Generation, generation_eq, changed_generations, join, is_compositor, note_compositor, note_first,
  note_stale, mark_stale_generation_evidence,
}

-- A finding without its details.
abbrev pub bare : LayerResult → LayerResult
bare result = record result { details = [] }

abbrev pub of_compositor : LayerResult → Bool
of_compositor result = is_compositor result.id

-- The finding that is noted: the first of the compositor, or else the first of all.
abbrev pub IsNotedPlace : List LayerResult → LayerResult → List LayerResult → Type 0
IsNotedPlace front noted back =
    ((of_compositor noted ≡ true) × (any of_compositor front ≡ false))
    ⊎ ((front ≡ []) × (any of_compositor (noted ∷ back) ≡ false))

-- The findings are those of before, with the detail behind those of the finding that is noted.
abbrev pub HasNote : Text → List LayerResult → List LayerResult → Type 0
HasNote detail [] marked = marked ≡ []
HasNote detail (first ∷ rest) marked =
    (front : List LayerResult) × (noted : LayerResult) × (back : List LayerResult) × (first ∷ rest
      ≡ front ++ noted ∷ back)
    × (marked ≡ front ++ record noted { details = noted.details ++ detail ∷ [] } ∷ back)
    × IsNotedPlace front noted back

abbrev pub stale_detail : List Text → Text
stale_detail names =
    text "binding evidence may be stale: adapter configuration generation changed ("
    ++ join names
    ++ text ")"

-- Nothing is noted where no adapter has changed.
abbrev pub IsMarked : List Text → List LayerResult → List LayerResult → Type 0
IsMarked [] results marked = marked ≡ results
IsMarked (name ∷ names) results marked = HasNote (stale_detail (name ∷ names)) results marked

or-behind : (a b : Bool) → a ≡ false → (a || b) ≡ true → b ≡ true
or-behind a b f h = ground arith

both_false : (a b : Bool) → a ≡ false → b ≡ false → (a || b) ≡ false
both_false a b f h = ground arith

-- The first finding of the compositor gets the detail.
abbrev AtCompositor : Text → List LayerResult → List LayerResult → Type 0
AtCompositor detail results marked =
    (front : List LayerResult) × (noted : LayerResult) × (back : List LayerResult) × (results
      ≡ front ++ noted ∷ back)
    × (marked ≡ front ++ record noted { details = noted.details ++ detail ∷ [] } ∷ back)
    × (of_compositor noted ≡ true)
    × (any of_compositor front ≡ false)

AtCompositor-cons :
    (detail : Text) (r : LayerResult) (rs marked : List LayerResult)
    → of_compositor r ≡ false
    → AtCompositor detail rs marked
    → AtCompositor detail (r ∷ rs) (r ∷ marked)
unfolding any
AtCompositor-cons detail r rs marked f (front, noted, back, before, after, t, none_before) = (
  r ∷ front,
  noted,
  back,
  ap (λ (s : List LayerResult). r ∷ s) before,
  ap (λ (s : List LayerResult). r ∷ s) after,
  t,
  both_false (of_compositor r) _ f none_before,
)

note_compositor-AtCompositor :
    (detail : Text) (rs : List LayerResult)
    → any of_compositor rs ≡ true
    → AtCompositor detail rs (note_compositor detail rs)
unfolding note_compositor with_detail any
note_compositor-AtCompositor detail [] h = ground arith
note_compositor-AtCompositor detail (r ∷ rs) h = elim (Bool-cases (of_compositor r)) [
  | inl t ↦ rw t ([], r, rs, refl, refl, t, refl)
  | inr f ↦ rw f (
      AtCompositor-cons detail r rs (note_compositor detail rs) f
        (note_compositor-AtCompositor detail rs (or-behind (of_compositor r) _ f h)))
]

AtCompositor-HasNote :
    (detail : Text) (r : LayerResult) (rs marked : List LayerResult)
    → AtCompositor detail (r ∷ rs) marked
    → HasNote detail (r ∷ rs) marked
AtCompositor-HasNote detail r rs marked (front, noted, back, before, after, t, none_before) =
    (front, noted, back, before, after, inl (t, none_before))

note_stale-IsMarked :
    (names : List Text) (results : List LayerResult)
    → IsMarked names results (note_stale names results)
unfolding note_first with_detail
note_stale-IsMarked [] results = refl
note_stale-IsMarked (name ∷ names) [] = unfold any in refl
note_stale-IsMarked (name ∷ names) (r ∷ rs) = elim (Bool-cases (any of_compositor (r ∷ rs))) [
  | inl t ↦ rw t (
      AtCompositor-HasNote (stale_detail (name ∷ names)) r rs _
        (note_compositor-AtCompositor (stale_detail (name ∷ names)) (r ∷ rs) t))
  | inr f ↦ rw f ([], r, rs, refl, refl, inr (refl, f))
]

-- Some place of both lists is of the adapter, with generations that differ.
abbrev pub Changed : Text → List Generation → List Generation → Type 0
Changed name [] after = ⊥
Changed name (b ∷ before) [] = ⊥
Changed name (b ∷ before) (a ∷ after) =
    ((name ≡ b.0) × (b.0 ≡ a.0) × (b.1 ≢ a.1)) ⊎ Changed name before after

generation_eq_sound : (a b : Option Text) → generation_eq a b ≡ true → a ≡ b
generation_eq_sound none none h = refl
generation_eq_sound none (some b) h = cc h
generation_eq_sound (some a) none h = cc h
generation_eq_sound (some a) (some b) h = ap some (text_eq_sound a b h)

generation_eq_refl : (a : Option Text) → generation_eq a a ≡ true
generation_eq_refl none = refl
generation_eq_refl (some a) = text_eq_refl a

-- The test of one place.
has_changed : Generation → Generation → Bool
has_changed b a = text_eq b.0 a.0 && not (generation_eq b.1 a.1)

has_changed_iff : (b a : Generation) → (has_changed b a ≡ true) ↔ ((b.0 ≡ a.0) × (b.1 ≢ a.1))
unfolding has_changed
has_changed_iff b a = (
  λ h.
      let (same, other) = &&-true (text_eq b.0 a.0) (not (generation_eq b.1 a.1)) h in
      (
        text_eq_sound b.0 a.0 same,
        λ e.
            let equal : generation_eq b.1 a.1 ≡ true =
              subst (λ g. generation_eq b.1 g ≡ true) e (generation_eq_refl b.1) in
            absurd (ground (arith, other, equal)),
      ),
  λ (same, other).
      let named : text_eq b.0 a.0 ≡ true =
        subst (λ n. text_eq b.0 n ≡ true) same (text_eq_refl b.0) in
      elim (Bool-cases (generation_eq b.1 a.1)) [
        | inl e ↦ absurd (other (generation_eq_sound b.1 a.1 e))
        | inr e ↦ rw (named, e) refl
      ],
)

changed_generations-cons :
    (b a : Generation) (before after : List Generation)
    → changed_generations (b ∷ before) (a ∷ after) ≡ (
        if has_changed b a
        then b.0 ∷ changed_generations before after
        else changed_generations before after)
unfolding changed_generations has_changed
changed_generations-cons b a before after = refl

changed_generations-Changed :
    (before after : List Generation) (name : Text)
    → In name (changed_generations before after) ↔ Changed name before after
changed_generations-Changed [] after name = unfold changed_generations in (λ h. h, λ h. h)
changed_generations-Changed (b ∷ before) [] name = unfold changed_generations in (λ h. h, λ h. h)
changed_generations-Changed (b ∷ before) (a ∷ after) name =
    let rest = changed_generations-Changed before after name in
    let here = has_changed_iff b a in
    elim (Bool-cases (has_changed b a)) [
      | inl t ↦ rw (changed_generations-cons b a before after) (
          rw t (
            λ h. elim h [ inl e ↦ inl (e, (here.0 t).0, (here.0 t).1) | inr i ↦ inr (rest.0 i) ],
            λ h. elim h [ inl e ↦ inl e.0 | inr c ↦ inr (rest.1 c) ],
          ))
      | inr f ↦ rw (changed_generations-cons b a before after) (
          rw f (
            λ h. inr (rest.0 h),
            λ h. elim h [
              | inl e ↦ absurd (ground (arith, f, here.1 (e.1, e.2)))
              | inr c ↦ rest.1 c
            ],
          ))
    ]

-- The check of the generations leaves every finding as it was, in its place, but for one more detail
-- at the end of one finding's details if some adapter's generation changed and the route has a
-- finding: the first of the compositor's, or the first of all if there is none. The detail names
-- the adapters that changed: those that stand at the same place of both lists with generations
-- that differ.
pub mark_stale-IsMarked :
    (results : List LayerResult) (before after : List Generation)
    → IsMarked
        (changed_generations before after)
        results
        (mark_stale_generation_evidence results before after)
      × ((name : Text) → In name (changed_generations before after) ↔ Changed name before after)
mark_stale-IsMarked results before after =
    unfold mark_stale_generation_evidence in
    (
      note_stale-IsMarked (changed_generations before after) results,
      changed_generations-Changed before after,
    )
