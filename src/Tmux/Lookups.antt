-- ===== src/Tmux/Lookups.antt =====
-- src/layers/tmux.rs: the ways that a key takes in a table of the client.
use whykey.Prelude.{
  true, false, Text, List, Option, none, some, ◌≡◌, ◌≢◌, ◌⊎◌, inl, inr, refl, arith, text_eq,
  text_eq_sound, text_eq_refl, if◌then◌else◌, Bool-cases, Option-cases, Result-cases, not, ◌&&◌,
  sym, ◌∙◌, ap, text,
}
use mathlib.Core.Path.{subst}
use whykey.Key.Combo.{KeyCombo}
use whykey.Tmux.Listing.{Binding, find_binding}
use whykey.Tmux.Resolve.{
  Tables, Resolution, root, prefix_table, is_prefix, look_up, resolve_root, resolve_key, retried,
}
use whykey.Tmux.Spec.{Effect, waits, acts, drops, forwards, Prefix, Bound, Unbound, LooksUp}

abbrev pub effect_of : Resolution → Option Effect
effect_of Resolution.prefix_entered = some waits
effect_of (Resolution.bound table binding) = some (acts table binding)
effect_of (Resolution.discarded table) = some drops
effect_of Resolution.forwarded = some forwards
effect_of (Resolution.table_unavailable table message) = none

pub text_eq-false : (s t : Text) → s ≢ t → text_eq s t ≡ false
text_eq-false s t h = elim (Bool-cases (text_eq s t)) [
  | inl e ↦ absurd (h (text_eq_sound s t e))
  | inr e ↦ e
]

pub false-differs : (s t : Text) → text_eq s t ≡ false → s ≢ t
false-differs s t h e = cc (h, text_eq_refl s, ap (text_eq s) e)

pub root_is_no_prefix : root ≢ prefix_table
unfolding text text_eq
root_is_no_prefix e = cc (ap (λ t. text_eq t root) e)

module _ (prefixes : List KeyCombo) (tables : Tables) where
  pub look_up-Bound :
      (table : Text) (key : KeyCombo) (unbound : Resolution) (binding : Binding)
      → Bound prefixes tables table key binding
      → look_up tables table key unbound ≡ Resolution.bound table binding
  unfolding look_up
  look_up-Bound table key unbound binding (output, e, f) = ground arith

  pub look_up-Unbound :
      (table : Text) (key : KeyCombo) (unbound : Resolution)
      → Unbound prefixes tables table key
      → look_up tables table key unbound ≡ unbound
  unfolding look_up
  look_up-Unbound table key unbound (output, e, f) = ground arith

  pub look_up-cases :
      (table : Text) (key : KeyCombo) (unbound : Resolution)
      → (effect_of (look_up tables table key unbound) ≡ none)
        ⊎ (((binding : Binding) × Bound prefixes tables table key binding)
            ⊎ Unbound prefixes tables table key)
  unfolding look_up
  look_up-cases table key unbound = elim (Result-cases (tables table)) [
    | inl (message, e) ↦ inl (ground arith)
    | inr (output, e) ↦ elim (Option-cases (find_binding output key table)) [
      | inl f ↦ inr (inr (output, e, f))
      | inr (binding, f) ↦ inr (inl (binding, (output, e, f)))
    ]
  ]

  -- The three ways that a key takes in a table.
  pub resolve_key-enters :
      (table : Text) (key : KeyCombo)
      → table ≢ prefix_table
      → Prefix prefixes tables key
      → resolve_key prefixes tables table key ≡ Resolution.prefix_entered
  unfolding resolve_key
  resolve_key-enters table key t p = rw (text_eq-false table prefix_table t) (rw p refl)

  skips_prefix :
      (table : Text) (key : KeyCombo)
      → LooksUp prefixes tables table key
      → (not (text_eq table prefix_table) && is_prefix prefixes key) ≡ false
  skips_prefix table key (inl e) =
      ground (arith, subst (λ t. text_eq t prefix_table ≡ true) (sym e) (text_eq_refl prefix_table))
  skips_prefix table key (inr e) = ground arith

  pub resolve_key-root :
      (key : KeyCombo) → resolve_key prefixes tables root key ≡ resolve_root prefixes tables key
  unfolding resolve_key resolve_root text text_eq
  resolve_key-root key = refl

  pub resolve_root-LooksUp :
      (key : KeyCombo)
      → is_prefix prefixes key ≡ false
      → resolve_root prefixes tables key ≡ look_up tables root key Resolution.forwarded
  unfolding resolve_root
  resolve_root-LooksUp key e = rw e refl

  -- What is made of a key that the table does not have.
  abbrev pub miss : Text → KeyCombo → Resolution
  miss table key =
      if text_eq table root
      then Resolution.forwarded
      else retried table (resolve_root prefixes tables key)

  pub miss-elsewhere :
      (table : Text) (key : KeyCombo)
      → table ≢ root
      → miss table key ≡ retried table (resolve_root prefixes tables key)
  miss-elsewhere table key r = rw (text_eq-false table root r) refl

  pub miss-root : (key : KeyCombo) → miss root key ≡ Resolution.forwarded
  miss-root key = rw (text_eq_refl root) refl

  pub resolve_key-LooksUp :
      (table : Text) (key : KeyCombo)
      → LooksUp prefixes tables table key
      → resolve_key prefixes tables table key ≡ look_up tables table key (miss table key)
  unfolding resolve_key
  resolve_key-LooksUp table key l = elim (Bool-cases (text_eq table root)) [
    | inl e ↦ rw (skips_prefix table key l) (rw e refl)
    | inr e ↦ rw (skips_prefix table key l) (rw e refl)
  ]

  pub resolve_key-Unbound :
      (table : Text) (key : KeyCombo)
      → LooksUp prefixes tables table key
      → Unbound prefixes tables table key
      → resolve_key prefixes tables table key ≡ miss table key
  resolve_key-Unbound table key l u =
      resolve_key-LooksUp table key l ∙ look_up-Unbound table key (miss table key) u

  pub resolve_key-Bound :
      (table : Text) (key : KeyCombo) (binding : Binding)
      → LooksUp prefixes tables table key
      → Bound prefixes tables table key binding
      → resolve_key prefixes tables table key ≡ Resolution.bound table binding
  resolve_key-Bound table key binding l b =
      resolve_key-LooksUp table key l ∙ look_up-Bound table key (miss table key) binding b

  pub resolve_key-elsewhere :
      (table : Text) (key : KeyCombo)
      → LooksUp prefixes tables table key
      → table ≢ root
      → Unbound prefixes tables table key
      → resolve_key prefixes tables table key ≡ retried table (resolve_key prefixes tables root key)
  resolve_key-elsewhere table key l r u =
      rw (resolve_key-root key) (resolve_key-Unbound table key l u ∙ miss-elsewhere table key r)

  pub looks_or_enters :
      (table : Text) (key : KeyCombo)
      → LooksUp prefixes tables table key ⊎ ((table ≢ prefix_table) × Prefix prefixes tables key)
  looks_or_enters table key = elim (Bool-cases (is_prefix prefixes key)) [
    | inr e ↦ inl (inr e)
    | inl p ↦ elim (Bool-cases (text_eq table prefix_table)) [
      | inl t ↦ inl (inl (text_eq_sound table prefix_table t))
      | inr t ↦ inr (false-differs table prefix_table t, p)
    ]
  ]
