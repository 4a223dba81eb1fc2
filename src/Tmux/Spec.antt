-- ===== src/Tmux/Spec.antt =====
-- The key tables of a tmux client, as its manual tells of them: which effect a key has in a table,
-- and which table the client is in behind it.
use whykey.Prelude.{
  Bool, true, false, Text, List, [], ◌∷◌, none, some, ok, ◌≡◌, ◌≢◌, ◌⊎◌, if◌then◌else◌,
}
use whykey.Key.Combo.{KeyCombo}
use whykey.Route.Model.{Outcome}
use whykey.Tmux.Listing.{Binding, find_binding}
use whykey.Tmux.Resolve.{Tables, root, prefix_table, or_root, switch_client_table, is_prefix}
use whykey.Tmux.Inspect.{sends_keys}

-- The client waits for the key behind a prefix, runs a binding, drops the key, or hands it to the
-- pane.
pub data Effect : Type 0 where
  waits : Effect
  acts : Text → Binding → Effect
  drops : Effect
  forwards : Effect

-- What is said of a key with the effect: for sure if its bytes are known to arrive.
abbrev pub shown_for_sure : Effect → Outcome
shown_for_sure waits = Outcome.consumed
shown_for_sure (acts table binding) =
    if sends_keys binding.action then Outcome.handled_and_passed else Outcome.consumed
shown_for_sure drops = Outcome.consumed
shown_for_sure forwards = Outcome.pass

abbrev pub shown : Bool → Effect → Outcome
shown true effect = shown_for_sure effect
shown false forwards = Outcome.pass
shown false _ = Outcome.handled_uncertain

module _ (prefixes : List KeyCombo) (tables : Tables) where
  abbrev pub Prefix : KeyCombo → Type 0
  Prefix key = is_prefix prefixes key ≡ true

  abbrev pub Bound : Text → KeyCombo → Binding → Type 0
  Bound table key binding =
      (output : _) × (tables table ≡ ok output) × (find_binding output key table ≡ some binding)

  abbrev pub Unbound : Text → KeyCombo → Type 0
  Unbound table key =
      (output : _) × (tables table ≡ ok output) × (find_binding output key table ≡ none)

  -- A prefix is one in every table but its own.
  abbrev pub LooksUp : Text → KeyCombo → Type 0
  LooksUp table key = (table ≡ prefix_table) ⊎ (is_prefix prefixes key ≡ false)

  pub data Keystroke : Text → KeyCombo → Effect → Text → Type 0 where
    enters :
        {table : Text} {key : KeyCombo}
        → table ≢ prefix_table
        → Prefix key
        → Keystroke table key waits prefix_table
    runs :
        {table : Text} {key : KeyCombo} {binding : Binding}
        → LooksUp table key
        → Bound table key binding
        → Keystroke table key (acts table binding) (or_root (switch_client_table binding.action))
    passes_on :
        {key : KeyCombo} → LooksUp root key → Unbound root key → Keystroke root key forwards root
    -- What a table does not have is tried in root.
    retries :
        {table next : Text} {key : KeyCombo} {effect : Effect}
        → LooksUp table key
        → table ≢ root
        → Unbound table key
        → Keystroke root key effect next
        → effect ≢ forwards
        → Keystroke table key effect next
    gives_up :
        {table : Text} {key : KeyCombo}
        → LooksUp table key
        → table ≢ root
        → Unbound table key
        → Keystroke root key forwards root
        → Keystroke table key drops root

  -- The keys of a sequence, one behind the other.
  pub data Run : Text → List KeyCombo → Text → Type 0 where
    ends : {table : Text} → Run table [] table
    presses :
        {table next last : Text} {key : KeyCombo} {keys : List KeyCombo} {effect : Effect}
        → Keystroke table key effect next
        → Run next keys last
        → Run table (key ∷ keys) last
