-- ===== src/Hyprland/Binding.antt =====
-- src/layers/hyprland: a binding that `hyprctl` reports, and what it does on a key press.
use whykey.Prelude.{
  ℕ, Bool, true, false, not, ◌&&◌, ◌||◌, Text, text, text_eq, is_empty, trim, Option, none, some,
  if◌then◌else◌,
}
use whykey.Hyprland.Json.{Json}

pub record Binding : Type 0 where
  pub modmask : ℕ
  pub key : Text
  pub keycode : ℕ
  pub catch_all : Bool
  pub non_consuming : Bool
  pub auto_consuming : Bool
  pub release : Bool
  pub long_press : Bool
  pub submap : Text
  pub submap_universal : Bool
  pub ignore_mods : Json
  pub locked : Json
  pub repeat : Json
  pub transparent : Json
  pub dont_inhibit : Json
  pub allow_input_capture : Json
  pub device : Json
  pub description : Text
  pub dispatcher : Text
  pub arg : Text

pub data MatchCertainty : Type 0 where
  exact possible_ignore_mods modifier_insensitive : MatchCertainty
  possible_device possible_unresolved_key : MatchCertainty

-- `place` is where the binding stands among the reported ones. It is what `std::ptr::eq` compares.
pub record BindingMatch : Type 0 where
  pub place : ℕ
  pub binding : Binding
  pub certainty : MatchCertainty

abbrev pub certain : MatchCertainty → Bool
certain MatchCertainty.exact = true
certain MatchCertainty.modifier_insensitive = true
certain _ = false

unfoldable pub is_certain : BindingMatch → Bool
is_certain matched = certain matched.certainty

unfoldable pub dispatcher_is_special : Binding → Bool
unfolding text_eq text
dispatcher_is_special binding =
    text_eq binding.dispatcher (text "global")
    || text_eq binding.dispatcher (text "pass")
    || text_eq binding.dispatcher (text "sendshortcut")
    || text_eq binding.dispatcher (text "mouse")

unfoldable pub runs_on_press : Binding → Bool
unfolding dispatcher_is_special
runs_on_press binding =
    not binding.long_press && (not binding.release || dispatcher_is_special binding)

unfoldable pub switches_submap : Binding → Bool
unfolding text_eq text
switches_submap binding = text_eq binding.dispatcher (text "submap")

unfoldable pub normalize_submap : Text → Text
unfolding text_eq text is_empty
normalize_submap submap =
    if is_empty submap || text_eq submap (text "reset") then text "default" else submap

unfoldable pub binding_is_active : Binding → Text → Bool
unfolding normalize_submap text_eq
binding_is_active binding active_submap =
    binding.submap_universal || text_eq (normalize_submap binding.submap) active_submap

abbrev nonempty : Text → Option Text
nonempty trimmed = if is_empty trimmed then none else some trimmed

unfoldable pub none_if_empty : Text → Option Text
unfolding trim is_empty
none_if_empty value = nonempty (trim value)
