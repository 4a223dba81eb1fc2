-- ===== src/Tmux/Sequences.antt =====
-- src/layers/tmux.rs: the finding on the last key of a sequence, by the client's key tables.
use whykey.Prelude.{
  Bool, true, false, Text, List, [], ◌∷◌, ◌++◌, none, some, ◌≡◌, ◌⊎◌, inl, inr, refl, sym, ◌∙◌, ap,
  text_eq, Bool-cases,
}
use mathlib.Core.Path.{subst}
use whykey.Key.Combo.{KeyCombo}
use whykey.Route.Model.{Outcome, LayerResult, new_result}
use whykey.Route.Noted.{bare}
use whykey.Tmux.Listing.{Binding}
use whykey.Tmux.Resolve.{Tables, Resolution, root, next_table, resolve_key}
use whykey.Tmux.Inspect.{
  unavailable, sends_keys, result_for_binding, key_result, step_detail, walk_keys,
}
use whykey.Tmux.Spec.{Effect, waits, acts, drops, forwards, shown, Keystroke, Run, ends, presses}
use whykey.Tmux.Lookups.{effect_of}
use whykey.Tmux.Resolved.{Keystroke-Leads, resolve_key-Acts}

abbrev pub IsFailure : Outcome → Type 0
IsFailure o = (o ≡ Outcome.unknown) ⊎ (o ≡ Outcome.unavailable)

key_result-bound :
    (current : Text) (details : List Text) (verified : Bool) (table : Text) (binding : Binding)
    → (key_result current details verified (Resolution.bound table binding)).outcome
      ≡ shown verified (acts table binding)
unfolding key_result new_result result_for_binding
key_result-bound current details false table binding = refl
key_result-bound current details true table binding =
    elim (Bool-cases (sends_keys binding.action)) [ inl e ↦ rw e refl | inr e ↦ rw e refl ]

-- The finding on a key shows its effect.
pub key_result-shown :
    (current : Text) (details : List Text) (verified : Bool) (r : Resolution) (effect : Effect)
    → effect_of r ≡ some effect
    → (key_result current details verified r).outcome ≡ shown verified effect
unfolding key_result new_result
key_result-shown current details true Resolution.prefix_entered effect e =
    let same : waits ≡ effect = cc in ap (shown true) same
key_result-shown current details false Resolution.prefix_entered effect e =
    let same : waits ≡ effect = cc in ap (shown false) same
key_result-shown current details verified (Resolution.bound table binding) effect e =
    let same : acts table binding ≡ effect = cc in
    key_result-bound current details verified table binding ∙ ap (shown verified) same
key_result-shown current details true (Resolution.discarded table) effect e =
    let same : drops ≡ effect = cc in ap (shown true) same
key_result-shown current details false (Resolution.discarded table) effect e =
    let same : drops ≡ effect = cc in ap (shown false) same
key_result-shown current details true Resolution.forwarded effect e =
    let same : forwards ≡ effect = cc in ap (shown true) same
key_result-shown current details false Resolution.forwarded effect e =
    let same : forwards ≡ effect = cc in ap (shown false) same
key_result-shown current details verified (Resolution.table_unavailable t m) effect e = cc

key_result-IsFailure :
    (current : Text) (details : List Text) (verified : Bool) (r : Resolution)
    → effect_of r ≡ none
    → IsFailure (key_result current details verified r).outcome
unfolding key_result new_result unavailable
key_result-IsFailure current details verified Resolution.prefix_entered e = cc
key_result-IsFailure current details verified (Resolution.bound table binding) e = cc
key_result-IsFailure current details verified (Resolution.discarded table) e = cc
key_result-IsFailure current details verified Resolution.forwarded e = cc
key_result-IsFailure current details verified (Resolution.table_unavailable t m) e =
    elim (Bool-cases (text_eq t root)) [
      | inl same ↦ inr (rw same refl)
      | inr other ↦ inl (rw other refl)
    ]

key_result-bare :
    (current : Text) (details details' : List Text) (verified : Bool) (r : Resolution)
    → bare (key_result current details verified r) ≡ bare (key_result current details' verified r)
unfolding key_result new_result result_for_binding
key_result-bare current details details' verified Resolution.prefix_entered = refl
key_result-bare current details details' verified (Resolution.discarded table) = refl
key_result-bare current details details' verified Resolution.forwarded = refl
key_result-bare current details details' false (Resolution.bound table binding) = refl
key_result-bare current details details' true (Resolution.bound table binding) =
    elim (Bool-cases (sends_keys binding.action)) [ inl e ↦ rw e refl | inr e ↦ rw e refl ]
key_result-bare current details details' verified (Resolution.table_unavailable t m) =
    elim (Bool-cases (text_eq t root)) [ inl e ↦ rw e refl | inr e ↦ rw e refl ]

module _ (prefixes : List KeyCombo) (tables : Tables) (verified : Bool) (key : KeyCombo) where
  abbrev walk : Text → List Text → List KeyCombo → LayerResult
  walk = walk_keys prefixes tables verified key

  -- The loop goes on behind a key that has an effect, and ends at one that has none.
  walk-step :
      (table : Text) (details : List Text) (earlier : KeyCombo) (rest : List KeyCombo)
      (r : Resolution) (effect : Effect)
      → resolve_key prefixes tables table earlier ≡ r
      → effect_of r ≡ some effect
      → walk table details (earlier ∷ rest)
        ≡ walk (next_table r) (details ++ step_detail earlier table (next_table r) ∷ []) rest
  unfolding walk_keys
  walk-step table details earlier rest Resolution.prefix_entered effect e f = rw (walk_keys, e) refl
  walk-step table details earlier rest (Resolution.bound t b) effect e f = rw (walk_keys, e) refl
  walk-step table details earlier rest (Resolution.discarded t) effect e f = rw (walk_keys, e) refl
  walk-step table details earlier rest Resolution.forwarded effect e f = rw (walk_keys, e) refl
  walk-step table details earlier rest (Resolution.table_unavailable t m) effect e f = cc

  walk-stop :
      (table : Text) (details : List Text) (earlier : KeyCombo) (rest : List KeyCombo)
      (r : Resolution)
      → resolve_key prefixes tables table earlier ≡ r
      → effect_of r ≡ none
      → (walk table details (earlier ∷ rest)).outcome ≡ Outcome.unknown
  unfolding walk_keys new_result
  walk-stop table details earlier rest Resolution.prefix_entered e f = cc
  walk-stop table details earlier rest (Resolution.bound t b) e f = cc
  walk-stop table details earlier rest (Resolution.discarded t) e f = cc
  walk-stop table details earlier rest Resolution.forwarded e f = cc
  walk-stop table details earlier rest (Resolution.table_unavailable t m) e f =
      rw (walk_keys, e) refl

  onward :
      {start next : Text} {effect : Effect} {earlier : KeyCombo} (details : List Text)
      (rest : List KeyCombo)
      → Keystroke prefixes tables start earlier effect next
      → walk start details (earlier ∷ rest)
        ≡ walk next (details ++ step_detail earlier start next ∷ []) rest
  onward {start} {next} {effect} {earlier} details rest press =
      let led = Keystroke-Leads prefixes tables press in
      subst
        (λ n.
          walk start details (earlier ∷ rest)
          ≡ walk n (details ++ step_detail earlier start n ∷ []) rest)
        led.1 (walk-step start details earlier rest _ effect refl led.0)

  -- The effect of the last key, behind the keys before it.
  abbrev pub Ends : Text → List KeyCombo → Outcome → Type 0
  Ends start preceding outcome =
      (table : Text) × (effect : Effect) × (next : Text) × Run prefixes tables start preceding table
      × Keystroke prefixes tables table key effect next
      × (shown verified effect ≡ outcome)

  pub walk-Ends :
      (start : Text) (details : List Text) (preceding : List KeyCombo)
      → IsFailure (walk start details preceding).outcome
        ⊎ Ends start preceding (walk start details preceding).outcome
  unfolding walk_keys
  walk-Ends start details [] = elim (resolve_key-Acts prefixes tables start key) [
    | inl e ↦ inl (key_result-IsFailure start details verified _ e)
    | inr (effect, next, press) ↦ inr (
      start,
      effect,
      next,
      ends,
      press,
      sym (
          key_result-shown start details verified _ effect
            (Keystroke-Leads prefixes tables press).0),
    )
  ]
  walk-Ends start details (earlier ∷ rest) = elim (resolve_key-Acts prefixes tables start earlier) [
    | inl e ↦ inl (inl (walk-stop start details earlier rest _ refl e))
    | inr (effect, next, press) ↦
        let more = details ++ step_detail earlier start next ∷ [] in
        let same = onward details rest press in
        elim (walk-Ends next more rest) [
          | inl f ↦ inl (subst (λ r. IsFailure r.outcome) (sym same) f)
          | inr (t, e, n, run, p, s) ↦
              inr
                (t, e, n, presses press run, p, s ∙ ap (λ (r : LayerResult). r.outcome) (sym same))
        ]
  ]

  pub walk-Run :
      {start table : Text} {preceding : List KeyCombo} (details : List Text) (later : List KeyCombo)
      → Run prefixes tables start preceding table
      → (more : List Text) × (walk start details (preceding ++ later) ≡ walk table more later)
  walk-Run details later ends = (details, refl)
  walk-Run details later (presses {table} {next} {last} {key} {keys} press run) =
      let (more, same) = walk-Run (details ++ step_detail key table next ∷ []) later run in
      (more, onward details (keys ++ later) press ∙ same)

  walk-stop_bare :
      (table : Text) (details details' : List Text) (earlier : KeyCombo) (rest : List KeyCombo)
      (r : Resolution)
      → resolve_key prefixes tables table earlier ≡ r
      → effect_of r ≡ none
      → bare (walk table details (earlier ∷ rest)) ≡ bare (walk table details' (earlier ∷ rest))
  unfolding walk_keys new_result
  walk-stop_bare table details details' earlier rest Resolution.prefix_entered e f = cc
  walk-stop_bare table details details' earlier rest (Resolution.bound t b) e f = cc
  walk-stop_bare table details details' earlier rest (Resolution.discarded t) e f = cc
  walk-stop_bare table details details' earlier rest Resolution.forwarded e f = cc
  walk-stop_bare table details details' earlier rest (Resolution.table_unavailable t m) e f =
      rw (walk_keys, e) refl

  -- But for the details, the finding does not depend on those that stand before it.
  pub walk-bare :
      (table : Text) (details details' : List Text) (preceding : List KeyCombo)
      → bare (walk table details preceding) ≡ bare (walk table details' preceding)
  unfolding walk_keys
  walk-bare table details details' [] =
      key_result-bare table details details' verified (resolve_key prefixes tables table key)
  walk-bare table details details' (earlier ∷ rest) =
      elim (resolve_key-Acts prefixes tables table earlier) [
        | inl e ↦ walk-stop_bare table details details' earlier rest _ refl e
        | inr (effect, next, press) ↦
            let this = onward details rest press in
            let that = onward details' rest press in
            ap bare this ∙ walk-bare next _ _ rest ∙ sym (ap bare that)
      ]
