-- ===== src/Tmux/Clients.antt =====
-- src/layers/tmux.rs: the inspection of a key behind the keys before it, against a client that goes
-- through tmux's key tables.
use mathlib.Core.List.{append-nil, append_assoc}
use whykey.Prelude.{
  ℕ, Bool, Text, List, [], ◌∷◌, ◌++◌, Option, none, some, ok, ◌≡◌, ◌≢◌, ◌⊎◌, ◌↔◌, inl, inr, refl,
  sym, ◌∙◌, ap, Bool-cases, text_eq, text_eq_sound, false,
}
use mathlib.Core.Path.{subst}
use whykey.Key.Combo.{KeyCombo}
use whykey.Route.Model.{Outcome, LayerResult, EvidenceTier}
use whykey.Route.Noted.{bare}
use whykey.Tmux.Resolve.{Tables, root, or_root, resolve_key, is_prefix}
use whykey.Tmux.Inspect.{
  walk_keys, parsed_prefixes, live_unless_unavailable, resolve_with_tables, inspect_with_tables,
}
use whykey.Tmux.Spec.{
  Effect, shown, Keystroke, Run, ends, presses, Unbound, drops, forwards, passes_on, gives_up,
}
use whykey.Tmux.Lookups.{false-differs}
use whykey.Tmux.Unread.{resolve_key-Unread}
use whykey.Tmux.Resolved.{Keystroke-Leads, resolve_key-Acts, Acts}
use whykey.Tmux.Sequences.{IsFailure, Ends, walk-Ends, walk-Run, walk-bare, key_result-shown}

live-outcome : (o : Outcome) (r : LayerResult) → (live_unless_unavailable o r).outcome ≡ r.outcome
live-outcome Outcome.unavailable r = refl
live-outcome Outcome.pass r = refl
live-outcome Outcome.handled_and_passed r = refl
live-outcome Outcome.consumed r = refl
live-outcome Outcome.redirected r = refl
live-outcome Outcome.handled_uncertain r = refl
live-outcome Outcome.uncertain_continues r = refl
live-outcome Outcome.unknown r = refl
live-outcome Outcome.unadapted_target r = refl

abbrev live : LayerResult → LayerResult
live r = record r { tier = some EvidenceTier.live_query }

live-bare :
    (o : Outcome) (r r' : LayerResult)
    → bare r ≡ bare r'
    → bare (live_unless_unavailable o r) ≡ bare (live_unless_unavailable o r')
live-bare Outcome.unavailable r r' e = e
live-bare Outcome.pass r r' e = ap live e
live-bare Outcome.handled_and_passed r r' e = ap live e
live-bare Outcome.consumed r r' e = ap live e
live-bare Outcome.redirected r r' e = ap live e
live-bare Outcome.handled_uncertain r r' e = ap live e
live-bare Outcome.uncertain_continues r r' e = ap live e
live-bare Outcome.unknown r r' e = ap live e
live-bare Outcome.unadapted_target r r' e = ap live e

live_of-bare :
    (r r' : LayerResult)
    → bare r ≡ bare r'
    → bare (live_unless_unavailable r.outcome r) ≡ bare (live_unless_unavailable r'.outcome r')
live_of-bare r r' e =
    live-bare r.outcome r r' e
    ∙ ap (λ (o : Outcome). bare (live_unless_unavailable o r'))
        (ap (λ (x : LayerResult). x.outcome) e)

module _ (raw_prefixes : List Text) (tables : Tables) (verified : Bool) (key : KeyCombo) where
  abbrev inspection : Option Text → List KeyCombo → LayerResult
  inspection active preceding =
      inspect_with_tables active raw_prefixes preceding key verified tables

  abbrev prefixes : List KeyCombo
  prefixes = parsed_prefixes raw_prefixes

  abbrev walked : Text → List Text → List KeyCombo → LayerResult
  walked start details preceding = walk_keys prefixes tables verified key start details preceding

  inspection-walk :
      (active : Option Text) (preceding : List KeyCombo)
      → (details : List Text) × (inspection active preceding
          ≡ live_unless_unavailable
              (walked (or_root active) details preceding).outcome
              (walked (or_root active) details preceding))
  unfolding inspect_with_tables resolve_with_tables
  inspection-walk active preceding = (_, refl)

  inspection-bare :
      (active : Option Text) (preceding : List KeyCombo) (details : List Text)
      → bare (inspection active preceding)
        ≡ bare (
            live_unless_unavailable
              (walked (or_root active) details preceding).outcome
              (walked (or_root active) details preceding))
  inspection-bare active preceding details =
      let (own, same) = inspection-walk active preceding in
      ap bare same
      ∙ live_of-bare _ _
          (walk-bare prefixes tables verified key (or_root active) own details preceding)

  inspection-Ends :
      (active : Option Text) (preceding : List KeyCombo)
      → IsFailure (inspection active preceding).outcome
        ⊎ Ends prefixes tables verified key
            (or_root active)
            preceding
            (inspection active preceding).outcome
  inspection-Ends active preceding =
      let (details, same) = inspection-walk active preceding in
      let outcome = ap (λ (r : LayerResult). r.outcome) same ∙ live-outcome _ _ in
      subst (λ o. IsFailure o ⊎ Ends prefixes tables verified key (or_root active) preceding o)
        (sym outcome) (walk-Ends prefixes tables verified key (or_root active) details preceding)

  Ends-inspection :
      (active : Option Text) (preceding : List KeyCombo) (outcome : Outcome)
      → Ends prefixes tables verified key (or_root active) preceding outcome
      → (inspection active preceding).outcome ≡ outcome
  unfolding walk_keys
  Ends-inspection active preceding outcome (table, effect, next, run, press, o) =
      let (details, same) = inspection-walk active preceding in
      let (more, walks) = walk-Run prefixes tables verified key details [] run in
      let there : walked (or_root active) details preceding ≡ walked table more [] =
        subst (λ l. walked (or_root active) details l ≡ walked table more []) (append-nil preceding)
          walks in
      let led = Keystroke-Leads prefixes tables press in
      ap (λ (r : LayerResult). r.outcome) same
      ∙ live-outcome _ _
      ∙ ap (λ (r : LayerResult). r.outcome) there
      ∙ key_result-shown table more verified (resolve_key prefixes tables table key) effect led.0
      ∙ o

  -- An outcome that is neither unknown nor unavailable is shown exactly when a client that goes
  -- through the key tables with the keys before, from the active table or root, handles the key with
  -- an effect that shows this outcome.
  pub inspect_with_tables-Ends :
      (active : Option Text) (preceding : List KeyCombo) (outcome : Outcome)
      → outcome ≢ Outcome.unknown
      → outcome ≢ Outcome.unavailable
      → ((inspect_with_tables active raw_prefixes preceding key verified tables).outcome ≡ outcome)
        ↔ Ends (parsed_prefixes raw_prefixes) tables verified key (or_root active) preceding outcome
  inspect_with_tables-Ends active preceding outcome known read = (
    λ e. elim (inspection-Ends active preceding) [
      | inl (inl u) ↦ absurd (known (sym e ∙ u))
      | inl (inr u) ↦ absurd (read (sym e ∙ u))
      | inr found ↦ subst (Ends prefixes tables verified key (or_root active) preceding) e found
    ],
    Ends-inspection active preceding outcome,
  )

  -- Behind keys that take the client from the active table, or root, to a table, a key is found to be
  -- handled, but for the details, as with this table active and the other keys alone before it.
  pub inspect_with_tables-Run :
      (active : Option Text) (preceding later : List KeyCombo) (table : Text)
      → Run (parsed_prefixes raw_prefixes) tables (or_root active) preceding table
      → bare (inspect_with_tables active raw_prefixes (preceding ++ later) key verified tables)
        ≡ bare (inspect_with_tables (some table) raw_prefixes later key verified tables)
  inspect_with_tables-Run active preceding later table run =
      let (details, same) = inspection-walk active (preceding ++ later) in
      let (more, walks) = walk-Run prefixes tables verified key details later run in
      ap bare same
      ∙ live_of-bare _ _ (ap bare walks)
      ∙ sym (inspection-bare (some table) later more)

  root-Keystroke :
      (table : Text) (lost : KeyCombo)
      → is_prefix prefixes lost ≡ false
      → Unbound prefixes tables table lost
      → Unbound prefixes tables root lost
      → (effect : Effect) × Keystroke prefixes tables table lost effect root
  root-Keystroke table lost p here home = elim (Bool-cases (text_eq table root)) [
    | inl e ↦ (
      forwards,
      subst (λ t. Keystroke prefixes tables t lost forwards root) (sym (text_eq_sound table root e))
          (passes_on (inr p) home),
    )
    | inr e ↦ (drops, gives_up (inr p) (false-differs table root e) here (passes_on (inr p) home))
  ]

  Run-append :
      {start middle last : Text} {before behind : List KeyCombo}
      → Run prefixes tables start before middle
      → Run prefixes tables middle behind last
      → Run prefixes tables start (before ++ behind) last
  Run-append ends run = run
  Run-append (presses press rest) run = presses press (Run-append rest run)

  -- Whatever keys came before and whichever table they led to, a key that is no prefix and that
  -- neither this table nor root binds brings the client back to root: the keys behind it are found
  -- to be handled, but for the details, as by a client that has just started.
  pub inspect_with_tables-back_in_root :
      (active : Option Text) (preceding later : List KeyCombo) (table : Text) (lost : KeyCombo)
      → Run (parsed_prefixes raw_prefixes) tables (or_root active) preceding table
      → is_prefix (parsed_prefixes raw_prefixes) lost ≡ false
      → Unbound (parsed_prefixes raw_prefixes) tables table lost
      → Unbound (parsed_prefixes raw_prefixes) tables root lost
      → bare (
          inspect_with_tables active raw_prefixes (preceding ++ (lost ∷ later)) key verified tables)
        ≡ bare (inspect_with_tables none raw_prefixes later key verified tables)
  inspect_with_tables-back_in_root active preceding later table lost run p here home =
      let (effect, press) = root-Keystroke table lost p here home in
      let all_keys = Run-append run (presses press ends) in
      let regrouped = sym (append_assoc preceding (lost ∷ []) later) in
      ap (λ keys. bare (inspection active keys)) regrouped
      ∙ inspect_with_tables-Run active (preceding ++ (lost ∷ [])) later root all_keys
      ∙ inspection-bare (some root) later []
      ∙ sym (inspection-bare none later [])

  module _ (answers : (table : Text) → (output : List ℕ) × (tables table ≡ ok output)) where
    answered_key : (table : Text) (any_key : KeyCombo) → Acts prefixes tables table any_key
    answered_key table any_key = elim (resolve_key-Acts prefixes tables table any_key) [
      | inr press ↦ press
      | inl e ↦
          let (unread, message, failed) = resolve_key-Unread prefixes tables table any_key e in
          absurd (cc (failed, (answers unread).1))
    ]

    answered_keys :
        (start : Text) (keys : List KeyCombo)
        → (table : Text) × Run prefixes tables start keys table
    answered_keys start [] = (start, ends)
    answered_keys start (first ∷ keys) =
        let (effect, next, press) = answered_key start first in
        let (table, run) = answered_keys next keys in (table, presses press run)

  -- When tmux answers for every table, every sequence of keys is followed to its end: the outcome is
  -- the one of the effect that the key has in the table that the keys before it lead to.
  pub inspect_with_tables-answered :
      (active : Option Text) (preceding : List KeyCombo)
      → ((table : Text) → (output : List ℕ) × (tables table ≡ ok output))
      → Ends
          (parsed_prefixes raw_prefixes)
          tables
          verified
          key
          (or_root active)
          preceding
          (inspect_with_tables active raw_prefixes preceding key verified tables).outcome
  inspect_with_tables-answered active preceding answers =
      let (table, run) = answered_keys answers (or_root active) preceding in
      let (effect, next, press) = answered_key answers table key in
      let found : Ends prefixes tables verified key (or_root active) preceding
          (shown verified effect) =
        (table, effect, next, run, press, refl) in
      subst (Ends prefixes tables verified key (or_root active) preceding)
        (sym (Ends-inspection active preceding (shown verified effect) found)) found
