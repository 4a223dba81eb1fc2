-- ===== src/Key/Displays.antt =====
-- src/key.rs: the two displays as one text, `joined`, and what the parser needs of it.
use mathlib.Core.List.{append-nil, append_assoc}
use whykey.Prelude.{
  ℕ, ◌<◌, String, Bool, true, false, Text, List, [], ◌∷◌, ◌++◌, Option, none, some, text, trim,
  trim_start, trim_end, is_empty, split_once, ◌==◌, if◌then◌else◌, ◌≡◌, refl, ap, ◌∙◌, arith, inl,
  inr, Bool-cases, Solid, trim_start-Solid, trim_end-Solid, trim-Solid, trim_end-append, bit_and,
  all_below, all_below_sound, is_some_and, ==_iff,
}
use whykey.Key.Modifiers.{modifier_mask, display_order}
use whykey.Key.Canonical.{IsKeyName}
use whykey.Key.Combo.{
  KeyCombo, modifiers_text, compact_display, write_modifiers, close_modifiers, display,
}
use whykey.Key.Strip.{Style, compact, spaced, joined, collect, AllReadable}

modifiers_text-joined :
    (m : ℕ) (order : List (ℕ × String)) (key : Text)
    → modifiers_text m order ++ key ≡ joined compact [] m order key
unfolding modifiers_text joined
modifiers_text-joined m [] key = refl
modifiers_text-joined m ((mask, name) ∷ rest) key = elim (Bool-cases (bit_and m mask == 0)) [
  | inl e ↦ rw e (modifiers_text-joined m rest key)
  | inr e ↦ rw e (simp append_assoc (rw (modifiers_text-joined m rest key)))
]

-- The loop of `Display` and what is written after it.
write-joined :
    (m : ℕ) (order : List (ℕ × String)) (out : Text) (wrote : Bool) (key : Text)
    → close_modifiers (write_modifiers m order out wrote) ++ key ≡ (
        if wrote
        then out ++ (text " +" ++ joined spaced (32 ∷ []) m order key)
        else out ++ joined spaced [] m order key)
unfolding write_modifiers close_modifiers joined text
write-joined m [] out true key = append_assoc out _ key
write-joined m [] out false key = refl
write-joined m ((mask, name) ∷ rest) out true key = elim (Bool-cases (bit_and m mask == 0)) [
  | inl e ↦ rw e (write-joined m rest out true key)
  | inr e ↦
      rw e (write-joined m rest ((out ++ text " + ") ++ text name) true key ∙ simp append_assoc)
]
write-joined m ((mask, name) ∷ rest) out false key = elim (Bool-cases (bit_and m mask == 0)) [
  | inl e ↦ rw e (write-joined m rest out false key)
  | inr e ↦ rw e (write-joined m rest (out ++ text name) true key ∙ simp append_assoc)
]

pub compact_display-joined :
    (c : KeyCombo)
    → c.alone ≡ false
    → compact_display c ≡ joined compact [] c.modifiers display_order c.key
unfolding compact_display
compact_display-joined c e =
    rw (e, append-nil c.key) (modifiers_text-joined c.modifiers display_order c.key)

pub display-joined :
    (c : KeyCombo) → c.alone ≡ false → display c ≡ joined spaced [] c.modifiers display_order c.key
unfolding display
display-joined c e =
    rw (e, append-nil c.key) (write-joined c.modifiers display_order [] false c.key)

pub readable_compact : AllReadable [] [] display_order
unfolding split_once trim is_empty modifier_mask text
readable_compact = (
  record { cut = λ rest. refl; trimmed = refl; full = refl; bit = refl },
  (
    record { cut = λ rest. refl; trimmed = refl; full = refl; bit = refl },
    (
      record { cut = λ rest. refl; trimmed = refl; full = refl; bit = refl },
      (
        record { cut = λ rest. refl; trimmed = refl; full = refl; bit = refl },
        (
          record { cut = λ rest. refl; trimmed = refl; full = refl; bit = refl },
          (
            record { cut = λ rest. refl; trimmed = refl; full = refl; bit = refl },
            (
              record { cut = λ rest. refl; trimmed = refl; full = refl; bit = refl },
              (record { cut = λ rest. refl; trimmed = refl; full = refl; bit = refl }, tt),
            ),
          ),
        ),
      ),
    ),
  ),
)

pub readable_first : AllReadable [] (32 ∷ []) display_order
unfolding split_once trim is_empty modifier_mask text
readable_first = (
  record { cut = λ rest. refl; trimmed = refl; full = refl; bit = refl },
  (
    record { cut = λ rest. refl; trimmed = refl; full = refl; bit = refl },
    (
      record { cut = λ rest. refl; trimmed = refl; full = refl; bit = refl },
      (
        record { cut = λ rest. refl; trimmed = refl; full = refl; bit = refl },
        (
          record { cut = λ rest. refl; trimmed = refl; full = refl; bit = refl },
          (
            record { cut = λ rest. refl; trimmed = refl; full = refl; bit = refl },
            (
              record { cut = λ rest. refl; trimmed = refl; full = refl; bit = refl },
              (record { cut = λ rest. refl; trimmed = refl; full = refl; bit = refl }, tt),
            ),
          ),
        ),
      ),
    ),
  ),
)

pub readable_spaced : AllReadable (32 ∷ []) (32 ∷ []) display_order
unfolding split_once trim is_empty modifier_mask text
readable_spaced = (
  record { cut = λ rest. refl; trimmed = refl; full = refl; bit = refl },
  (
    record { cut = λ rest. refl; trimmed = refl; full = refl; bit = refl },
    (
      record { cut = λ rest. refl; trimmed = refl; full = refl; bit = refl },
      (
        record { cut = λ rest. refl; trimmed = refl; full = refl; bit = refl },
        (
          record { cut = λ rest. refl; trimmed = refl; full = refl; bit = refl },
          (
            record { cut = λ rest. refl; trimmed = refl; full = refl; bit = refl },
            (
              record { cut = λ rest. refl; trimmed = refl; full = refl; bit = refl },
              (record { cut = λ rest. refl; trimmed = refl; full = refl; bit = refl }, tt),
            ),
          ),
        ),
      ),
    ),
  ),
)

all_collected : all_below 256 (λ m. is_some_and (λ r. r == m) (collect 0 m display_order)) ≡ true
unfolding all_below collect
all_collected = refl

pub collect-display_order : (m : ℕ) → m < 256 → collect 0 m display_order ≡ some m
collect-display_order m h =
    pick (collect 0 m display_order) (all_below_sound 256 _ m all_collected h)
  where
    pick : (o : Option ℕ) → is_some_and (λ r. r == m) o ≡ true → o ≡ some m
    pick none e = ground arith
    pick (some r) e = ap some ((==_iff r m).0 e)

pub trim_key : (k : Text) → IsKeyName k → trim k ≡ k
trim_key k h = trim-Solid k h.solid

pub trim_key_spaced : (k : Text) → IsKeyName k → trim (32 ∷ k) ≡ k
trim_key_spaced k h = unfold trim in trim_key k h

-- A text that ends in a character that is no whitespace.
record IsEnded (t : Text) : Type 0 where
  at_end : trim_end t ≡ t
  full : is_empty t ≡ false

is_empty-append : (s t : Text) → is_empty t ≡ false → is_empty (s ++ t) ≡ false
unfolding is_empty
is_empty-append [] t h = h
is_empty-append (c ∷ s) t h = refl

IsEnded-append : (s t : Text) → IsEnded t → IsEnded (s ++ t)
IsEnded-append s t h = record {
  at_end = trim_end-append s t h.at_end h.full;
  full = is_empty-append s t h.full;
}

IsEnded-joined :
    (style : Style) (lead : Text) (m : ℕ) (order : List (ℕ × String)) (k : Text)
    → IsEnded k
    → IsEnded (joined style lead m order k)
unfolding joined
IsEnded-joined style lead m [] k h = IsEnded-append lead k h
IsEnded-joined style lead m ((mask, name) ∷ rest) k h = elim (Bool-cases (bit_and m mask == 0)) [
  | inl e ↦ rw e (IsEnded-joined style lead m rest k h)
  | inr e ↦
      let tail = joined style style.next m rest k in
      rw e (
        IsEnded-append lead _ (
          IsEnded-append (text name) _ (
            IsEnded-append style.trail _
              (IsEnded-append (b'+' ∷ []) tail (IsEnded-joined style style.next m rest k h)))))
]

-- Every name begins with a character that is no whitespace.
abbrev AllFirm : List (ℕ × String) → Type 0
AllFirm [] = Unit {0}
AllFirm ((mask, name) ∷ rest) =
    ((t : Text) → trim_start (text name ++ t) ≡ text name ++ t) × AllFirm rest

display_order-AllFirm : AllFirm display_order
unfolding trim_start text
display_order-AllFirm = (
  λ t. refl,
  (λ t. refl, (λ t. refl, (λ t. refl, (λ t. refl, (λ t. refl, (λ t. refl, (λ t. refl, tt))))))),
)

trim_start-joined :
    (style : Style) (m : ℕ) (order : List (ℕ × String)) (k : Text)
    → AllFirm order
    → Solid k
    → trim_start (joined style [] m order k) ≡ joined style [] m order k
unfolding joined
trim_start-joined style m [] k f h = trim_start-Solid k h
trim_start-joined style m ((mask, name) ∷ rest) k f h = elim (Bool-cases (bit_and m mask == 0)) [
  | inl e ↦ rw e (trim_start-joined style m rest k f.1 h)
  | inr e ↦ rw e (f.0 _)
]

IsEnded-key : (k : Text) → IsKeyName k → IsEnded k
IsEnded-key k h = record { at_end = trim_end-Solid k h.solid; full = h.nonempty }

-- A display is left alone by `trim`.
pub trim-joined :
    (style : Style) (m : ℕ) (k : Text)
    → IsKeyName k
    → trim (joined style [] m display_order k) ≡ joined style [] m display_order k
unfolding trim
trim-joined style m k h =
    rw (trim_start-joined style m display_order k display_order-AllFirm h.solid)
      (IsEnded-joined style [] m display_order k (IsEnded-key k h)).at_end

pub joined-full :
    (style : Style) (m : ℕ) (k : Text)
    → IsKeyName k
    → is_empty (joined style [] m display_order k) ≡ false
joined-full style m k h = (IsEnded-joined style [] m display_order k (IsEnded-key k h)).full
