-- ===== src/Route/Stale.antt =====
-- src/layers/inspection.rs: the note on findings whose configuration was reloaded meanwhile.
use whykey.Prelude.{
  Bool, true, false, not, ◌&&◌, Text, List, [], ◌∷◌, ◌++◌, any, Option, none, some, text, text_eq,
  if◌then◌else◌,
}
use whykey.Route.Model.{LayerResult, LayerId}
use whykey.Route.Remap.{with_detail}

-- An adapter and the generation of its configuration.
abbrev pub Generation : Type 0
Generation = Text × Option Text

abbrev pub generation_eq : Option Text → Option Text → Bool
generation_eq none none = true
generation_eq (some a) (some b) = text_eq a b
generation_eq _ _ = false

unfoldable pub changed_generations : List Generation → List Generation → List Text
unfolding text_eq
changed_generations [] _ = []
changed_generations (_ ∷ _) [] = []
changed_generations (before ∷ befores) (after ∷ afters) =
    let rest = changed_generations befores afters in
    if text_eq before.0 after.0 && not (generation_eq before.1 after.1)
    then before.0 ∷ rest
    else rest

-- `changed.join(", ")`
unfoldable pub join : List Text → Text
join [] = []
join (name ∷ []) = name
join (name ∷ next ∷ rest) = name ++ (b',' ∷ 32 ∷ join (next ∷ rest))

abbrev pub is_compositor : LayerId → Bool
is_compositor LayerId.compositor = true
is_compositor _ = false

-- The detail at the first finding of the compositor.
unfoldable pub note_compositor : Text → List LayerResult → List LayerResult
unfolding with_detail
note_compositor detail [] = []
note_compositor detail (result ∷ results) =
    let rest = note_compositor detail results in
    if is_compositor result.id then with_detail result detail ∷ results else result ∷ rest

unfoldable pub note_first : Text → List LayerResult → List LayerResult
unfolding with_detail
note_first detail [] = []
note_first detail (result ∷ results) = with_detail result detail ∷ results

abbrev pub note_stale : List Text → List LayerResult → List LayerResult
note_stale [] results = results
note_stale (name ∷ names) results =
    let detail =
      text "binding evidence may be stale: adapter configuration generation changed ("
      ++ join (name ∷ names)
      ++ text ")" in
    if any (λ (r : LayerResult). is_compositor r.id) results
    then note_compositor detail results
    else note_first detail results

-- `mark_stale_generation_evidence`
unfoldable pub mark_stale_generation_evidence :
    List LayerResult → List Generation → List Generation → List LayerResult
unfolding changed_generations note_compositor note_first any join text
mark_stale_generation_evidence results before after =
    note_stale (changed_generations before after) results
