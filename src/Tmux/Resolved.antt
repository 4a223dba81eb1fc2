-- ===== src/Tmux/Resolved.antt =====
-- src/layers/tmux.rs: the resolution of one key, which follows the client's key tables.
use whykey.Prelude.{
  Text, List, none, some, ◌≡◌, ◌≢◌, ◌⊎◌, inl, inr, refl, text_eq, text_eq_sound, Bool-cases, sym,
  ◌∙◌, ap,
}
use mathlib.Core.Path.{subst}
use whykey.Key.Combo.{KeyCombo}
use whykey.Tmux.Resolve.{Tables, Resolution, root, resolve_key, next_table, retried}
use whykey.Tmux.Spec.{
  Effect, waits, acts, drops, forwards, Unbound, LooksUp, Keystroke, enters, runs, passes_on,
  retries, gives_up,
}
use whykey.Tmux.Lookups.{
  effect_of, false-differs, look_up-cases, resolve_key-enters, miss, miss-root, resolve_key-LooksUp,
  resolve_key-Unbound, resolve_key-Bound, resolve_key-elsewhere, looks_or_enters,
}

-- The resolution has the effect, and leaves the client in the table.
abbrev pub Leads : Resolution → Effect → Text → Type 0
Leads resolution effect next = (effect_of resolution ≡ some effect) × (next_table resolution ≡ next)

module _ (prefixes : List KeyCombo) (tables : Tables) where
  retried-Leads :
      (table : Text) (resolution : Resolution) (effect : Effect) (next : Text)
      → Leads resolution effect next
      → effect ≢ forwards
      → Leads (retried table resolution) effect next
  retried-Leads table Resolution.prefix_entered effect next l f = l
  retried-Leads table (Resolution.bound t b) effect next l f = l
  retried-Leads table (Resolution.discarded t) effect next l f = l
  retried-Leads table Resolution.forwarded effect next l f = absurd (f (cc (l.0)))
  retried-Leads table (Resolution.table_unavailable t m) effect next l f = l

  from :
      {r r' : Resolution} {effect : Effect} {next : Text}
      → r ≡ r'
      → Leads r' effect next
      → Leads r effect next
  from {effect = effect} {next = next} e = subst (λ r. Leads r effect next) (sym e)

  only_forwarded :
      (resolution : Resolution)
      → effect_of resolution ≡ some forwards
      → resolution ≡ Resolution.forwarded
  only_forwarded Resolution.prefix_entered e = cc
  only_forwarded (Resolution.bound t b) e = cc
  only_forwarded (Resolution.discarded t) e = cc
  only_forwarded Resolution.forwarded e = refl
  only_forwarded (Resolution.table_unavailable t m) e = cc

  -- Every step of the client is what the code resolves.
  pub Keystroke-Leads :
      {table next : Text} {key : KeyCombo} {effect : Effect}
      → Keystroke prefixes tables table key effect next
      → Leads (resolve_key prefixes tables table key) effect next
  unfolding next_table
  Keystroke-Leads (enters {table} {key} t p) =
      from (resolve_key-enters prefixes tables table key t p) (refl, refl)
  Keystroke-Leads (runs {table} {key} {binding} l b) =
      from (resolve_key-Bound prefixes tables table key binding l b) (refl, refl)
  Keystroke-Leads (passes_on {key} l u) =
      from (resolve_key-Unbound prefixes tables root key l u ∙ miss-root prefixes tables key)
        (refl, refl)
  Keystroke-Leads (retries {table} {next} {key} {effect} l r u back f) =
      from (resolve_key-elsewhere prefixes tables table key l r u) (
        retried-Leads table (resolve_key prefixes tables root key) effect next
          (Keystroke-Leads back) f)
  Keystroke-Leads (gives_up {table} {key} l r u back) =
      from
        (resolve_key-elsewhere prefixes tables table key l r u
          ∙ ap (retried table) (only_forwarded _ (Keystroke-Leads back).0))
        (refl, refl)

  -- A key whose tables can be read has an effect.
  abbrev pub Acts : Text → KeyCombo → Type 0
  Acts table key =
      (effect : Effect) × (next : Text) × Keystroke prefixes tables table key effect next

  looked_up :
      (table : Text) (key : KeyCombo)
      → LooksUp prefixes tables table key
      → (Unbound prefixes tables table key
          → (effect_of (resolve_key prefixes tables table key) ≡ none) ⊎ Acts table key)
      → (effect_of (resolve_key prefixes tables table key) ≡ none) ⊎ Acts table key
  looked_up table key l miss_case =
      elim (look_up-cases prefixes tables table key (miss prefixes tables table key)) [
        | inl e ↦ inl (ap effect_of (resolve_key-LooksUp prefixes tables table key l) ∙ e)
        | inr (inl (binding, b)) ↦ inr (_, _, runs l b)
        | inr (inr u) ↦ miss_case u
      ]

  Acts-root :
      (key : KeyCombo) → (effect_of (resolve_key prefixes tables root key) ≡ none) ⊎ Acts root key
  Acts-root key = elim (looks_or_enters prefixes tables root key) [
    | inr (t, p) ↦ inr (_, _, enters t p)
    | inl l ↦ looked_up root key l (λ u. inr (_, _, passes_on l u))
  ]

  retried-none :
      (table : Text) (resolution : Resolution)
      → effect_of resolution ≡ none
      → effect_of (retried table resolution) ≡ none
  retried-none table Resolution.prefix_entered e = e
  retried-none table (Resolution.bound t b) e = e
  retried-none table (Resolution.discarded t) e = e
  retried-none table Resolution.forwarded e = cc
  retried-none table (Resolution.table_unavailable t m) e = e

  retried_step :
      (table : Text) (key : KeyCombo)
      → LooksUp prefixes tables table key
      → table ≢ root
      → Unbound prefixes tables table key
      → Acts root key
      → Acts table key
  unfolding next_table
  retried_step table key l r u (forwards, next, back) =
      let led = Keystroke-Leads back in
      let home = sym led.1 ∙ ap next_table (only_forwarded _ led.0) in
      (drops, root, gives_up l r u (subst (Keystroke prefixes tables root key forwards) home back))
  retried_step table key l r u (waits, next, back) = (_, _, retries l r u back (λ e. cc))
  retried_step table key l r u (drops, next, back) = (_, _, retries l r u back (λ e. cc))
  retried_step table key l r u (acts t b, next, back) = (_, _, retries l r u back (λ e. cc))

  Acts-elsewhere :
      (table : Text) (key : KeyCombo)
      → table ≢ root
      → (effect_of (resolve_key prefixes tables table key) ≡ none) ⊎ Acts table key
  Acts-elsewhere table key r = elim (looks_or_enters prefixes tables table key) [
    | inr (t, p) ↦ inr (_, _, enters t p)
    | inl l ↦ looked_up table key l λ u. elim (Acts-root key) [
      | inl e ↦ inl (
          ap effect_of (resolve_key-elsewhere prefixes tables table key l r u)
          ∙ retried-none table _ e)
      | inr back ↦ inr (retried_step table key l r u back)
    ]
  ]

  pub resolve_key-Acts :
      (table : Text) (key : KeyCombo)
      → (effect_of (resolve_key prefixes tables table key) ≡ none) ⊎ Acts table key
  resolve_key-Acts table key = elim (Bool-cases (text_eq table root)) [
    | inl e ↦
        subst (λ t. (effect_of (resolve_key prefixes tables t key) ≡ none) ⊎ Acts t key)
          (sym (text_eq_sound table root e)) (Acts-root key)
    | inr e ↦ Acts-elsewhere table key (false-differs table root e)
  ]

  -- What is resolved is a step of the client.
  pub Leads-Keystroke :
      (table : Text) (key : KeyCombo) (effect : Effect) (next : Text)
      → Leads (resolve_key prefixes tables table key) effect next
      → Keystroke prefixes tables table key effect next
  Leads-Keystroke table key effect next l = elim (resolve_key-Acts table key) [
    | inl e ↦ cc
    | inr (other, last, press) ↦
        let led = Keystroke-Leads press in
        let same : other ≡ effect = cc (led.0, l.0) in
        subst (λ e. Keystroke prefixes tables table key e next) same
          (subst (Keystroke prefixes tables table key other) (sym led.1 ∙ l.1) press)
  ]
