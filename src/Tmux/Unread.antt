-- ===== src/Tmux/Unread.antt =====
-- src/layers/tmux.rs: keys that have no effect.
use whykey.Prelude.{
  Text, List, none, err, ◌≡◌, ◌⊎◌, inl, inr, refl, text_eq, Bool-cases, Option-cases, Result-cases,
  sym, ◌∙◌, ap,
}
use whykey.Key.Combo.{KeyCombo}
use whykey.Tmux.Listing.{find_binding}
use whykey.Tmux.Resolve.{
  Tables, Resolution, root, is_prefix, look_up, resolve_root, resolve_key, retried,
}
use whykey.Tmux.Lookups.{
  effect_of, false-differs, root_is_no_prefix, look_up-Bound, look_up-Unbound, resolve_key-enters,
  resolve_key-root, resolve_root-LooksUp, miss, miss-elsewhere, resolve_key-LooksUp,
  looks_or_enters,
}

module _ (prefixes : List KeyCombo) (tables : Tables) where
  -- A key has no effect only where tmux does not tell a table.
  abbrev pub Unread : Type 0
  Unread = (table : Text) × (message : Text) × (tables table ≡ err message)

  look_up-Unread :
      (table : Text) (key : KeyCombo) (unbound : Resolution)
      → effect_of (look_up tables table key unbound) ≡ none
      → Unread ⊎ (effect_of unbound ≡ none)
  look_up-Unread table key unbound e = elim (Result-cases (tables table)) [
    | inl (message, f) ↦ inl (table, message, f)
    | inr (output, f) ↦ elim (Option-cases (find_binding output key table)) [
      | inl g ↦ inr (
          ap effect_of (sym (look_up-Unbound prefixes tables table key unbound (output, f, g))) ∙ e)
      | inr (binding, g) ↦
          let found = look_up-Bound prefixes tables table key unbound binding (output, f, g) in
          absurd (cc (ap effect_of found, e))
    ]
  ]

  none-retried :
      (table : Text) (resolution : Resolution)
      → effect_of (retried table resolution) ≡ none
      → effect_of resolution ≡ none
  none-retried table Resolution.prefix_entered e = e
  none-retried table (Resolution.bound t b) e = e
  none-retried table (Resolution.discarded t) e = e
  none-retried table Resolution.forwarded e = cc
  none-retried table (Resolution.table_unavailable t m) e = e

  resolve_root-Unread :
      (key : KeyCombo) → effect_of (resolve_root prefixes tables key) ≡ none → Unread
  resolve_root-Unread key e = elim (Bool-cases (is_prefix prefixes key)) [
    | inl p ↦
        let entered = resolve_key-enters prefixes tables root key root_is_no_prefix p in
        absurd (cc (ap effect_of (sym (resolve_key-root prefixes tables key) ∙ entered), e))
    | inr p ↦
        elim (look_up-Unread root key Resolution.forwarded
          (ap effect_of (sym (resolve_root-LooksUp prefixes tables key p)) ∙ e)) [
            | inl u ↦ u
            | inr f ↦ cc
          ]
  ]

  miss-Unread :
      (table : Text) (key : KeyCombo) → effect_of (miss prefixes tables table key) ≡ none → Unread
  miss-Unread table key e = elim (Bool-cases (text_eq table root)) [
    | inl t ↦
        let home : miss prefixes tables table key ≡ Resolution.forwarded = rw t refl in
        absurd (cc (ap effect_of home, e))
    | inr t ↦ resolve_root-Unread key (
        none-retried table _ (
          ap effect_of (sym (miss-elsewhere prefixes tables table key (false-differs table root t)))
          ∙ e))
  ]

  pub resolve_key-Unread :
      (table : Text) (key : KeyCombo)
      → effect_of (resolve_key prefixes tables table key) ≡ none
      → Unread
  resolve_key-Unread table key e = elim (looks_or_enters prefixes tables table key) [
    | inr (t, p) ↦ absurd (cc (ap effect_of (resolve_key-enters prefixes tables table key t p), e))
    | inl l ↦
        elim (look_up-Unread table key (miss prefixes tables table key)
          (ap effect_of (sym (resolve_key-LooksUp prefixes tables table key l)) ∙ e)) [
            | inl u ↦ u
            | inr f ↦ miss-Unread table key f
          ]
  ]
