-- ===== src/Key/Canonical.antt =====
-- src/key.rs: the normal form of key names, and key names that are their own.
use whykey.Prelude.{
  ℕ, String, Bool, true, false, not, ◌&&◌, ◌⊎◌, Text, List, [], ◌∷◌, ◌++◌, Option, none, some,
  Result, ok, err, text, text_eq, to_lower, to_upper, is_whitespace, is_ascii_digit, is_empty,
  contains_char, strip_prefix, all, any, ◌==◌, ◌≡◌, refl, ap, ◌∙◌, arith, inl, inr, Option-cases,
  Solid, text_eq_sound, to_lower-to_upper, to_upper_idem, to_upper-to_lower,
  is_whitespace-char_to_upper, plus-char_to_upper, &&-true,
}
use whykey.Key.Modifiers.{match_text, match_text-all, modifier_mask}
use whykey.Key.Names.{
  ParseKeyComboError, key_aliases, normalize_key_str, has_whitespace, after_five, keycode,
  normalize_key,
}

-- A key that the parser returns as it is, and that is no modifier.
pub record IsKeyName (key : Text) : Type 0 where
  pub solid : Solid key
  pub nonempty : is_empty key ≡ false
  pub no_modifier : modifier_mask key ≡ none
  pub plain : (contains_char b'+' key && not (text_eq key (b'+' ∷ []))) ≡ false
  pub stable : normalize_key key ≡ ok key

abbrev is_none {ℓ} : {A : Type ℓ} → Option A → Bool
is_none none = true
is_none (some a) = false

abbrev is_ok_of : Text → Result ParseKeyComboError Text → Bool
is_ok_of key (ok k) = text_eq k key
is_ok_of key (err e) = false

-- The same as a test, for the table of aliases.
is_key_name : Text → Bool
unfolding all is_whitespace is_empty modifier_mask contains_char text_eq normalize_key
is_key_name key =
    all (λ c. not (is_whitespace c)) key
    && (not (is_empty key)
        && (is_none (modifier_mask key)
            && (not (contains_char b'+' key && not (text_eq key (b'+' ∷ [])))
                && is_ok_of key (normalize_key key))))

is_none_sound {ℓ} : {A : Type ℓ} (o : Option A) → is_none o ≡ true → o ≡ none
is_none_sound none h = refl
is_none_sound (some a) h = ground arith

is_ok_of_sound : (k : Text) (r : Result ParseKeyComboError Text) → is_ok_of k r ≡ true → r ≡ ok k
is_ok_of_sound k (ok a) h = ap ok (text_eq_sound a k h)
is_ok_of_sound k (err e) h = ground arith

not-true : (b : Bool) → not b ≡ true → b ≡ false
not-true b h = ground arith

is_key_name_sound : (key : Text) → is_key_name key ≡ true → IsKeyName key
unfolding is_key_name
is_key_name_sound key h =
    let (a, h₁) = &&-true _ _ h in
    let (b, h₂) = &&-true _ _ h₁ in
    let (c, h₃) = &&-true _ _ h₂ in
    let (d, e) = &&-true _ _ h₃ in
    record {
      solid = a;
      nonempty = not-true _ b;
      no_modifier = is_none_sound _ c;
      plain = not-true _ d;
      stable = is_ok_of_sound key _ e;
    }

all-not-any {ℓ} :
    {A : Type ℓ} (p : A → Bool) (xs : List A) → any p xs ≡ false → all (λ x. not (p x)) xs ≡ true
unfolding any all
all-not-any p [] h = refl
all-not-any p (x ∷ xs) h = ground (arith, all-not-any p xs)

any-not-all {ℓ} :
    {A : Type ℓ} (p : A → Bool) (xs : List A) → all (λ x. not (p x)) xs ≡ true → any p xs ≡ false
unfolding any all
any-not-all p [] h = refl
any-not-all p (x ∷ xs) h = ground (arith, any-not-all p xs)

Solid-to_upper : (s : Text) → Solid s → Solid (to_upper s)
unfolding all to_upper
Solid-to_upper [] h = refl
Solid-to_upper (c ∷ s) h = ground (arith, Solid-to_upper s, is_whitespace-char_to_upper c)

contains_char-to_upper : (s : Text) → contains_char b'+' (to_upper s) ≡ contains_char b'+' s
unfolding contains_char to_upper
contains_char-to_upper [] = refl
contains_char-to_upper (c ∷ s) = rw (plus-char_to_upper c, contains_char-to_upper s)

aliases_check : all (λ (e : String × String). is_key_name (text e.1)) key_aliases ≡ true
unfolding all is_key_name
aliases_check = refl

is_empty-to_upper : (s : Text) → is_empty (to_upper s) ≡ is_empty s
unfolding is_empty to_upper
is_empty-to_upper [] = refl
is_empty-to_upper (c ∷ s) = refl

plus-to_upper : (s : Text) → text_eq (to_upper s) (b'+' ∷ []) ≡ text_eq s (b'+' ∷ [])
unfolding text_eq to_upper
plus-to_upper [] = refl
plus-to_upper (c ∷ []) = rw plus-char_to_upper
plus-to_upper (c ∷ d ∷ s) = rw plus-char_to_upper

digit-not-whitespace : (c : ℕ) → is_ascii_digit c ≡ true → is_whitespace c ≡ false
unfolding is_ascii_digit is_whitespace
digit-not-whitespace c h = ground arith

digit-not-plus : (c : ℕ) → is_ascii_digit c ≡ true → (c == b'+') ≡ false
unfolding is_ascii_digit
digit-not-plus c h = ground arith

digits-Solid : (s : Text) → all is_ascii_digit s ≡ true → Solid s
unfolding all
digits-Solid [] h = refl
digits-Solid (c ∷ s) h = ground (arith, digits-Solid s, digit-not-whitespace c)

digits-no_plus : (s : Text) → all is_ascii_digit s ≡ true → contains_char b'+' s ≡ false
unfolding all contains_char
digits-no_plus [] h = refl
digits-no_plus (c ∷ s) h = ground (arith, digits-no_plus s, digit-not-plus c)

-- `CODE:` and digits.
module _ (code : Text) (full : is_empty code ≡ false)
    (digits : all is_ascii_digit code ≡ true) where
  code-Solid : Solid (text "CODE:" ++ code)
  unfolding all text is_whitespace
  code-Solid = digits-Solid code digits

  code-IsKeyName : IsKeyName (text "CODE:" ++ code)
  code-IsKeyName = record {
    solid = code-Solid;
    nonempty = unfold is_empty text in refl;
    no_modifier = unfold modifier_mask text in refl;
    plain = unfold contains_char text in rw (digits-no_plus code digits);
    stable =
        unfold normalize_key in
        rw (any-not-all is_whitespace _ code-Solid) (unfold keycode in rw (full, digits));
  }

keycode_parts :
    (r k : Text)
    → keycode r ≡ ok k
    → (is_empty (after_five r) ≡ false)
      × (all is_ascii_digit (after_five r) ≡ true)
      × (text "CODE:" ++ after_five r ≡ k)
unfolding keycode
keycode_parts r k h = ground arith

keycode-IsKeyName : (r k : Text) → keycode r ≡ ok k → IsKeyName k
keycode-IsKeyName r k h =
    let (full, digits, e) = keycode_parts r k h in
    rw (← e) (code-IsKeyName (after_five r) full digits)

-- A key that is no alias is folded to upper case.
normalize_key_str_other :
    (r : Text) → match_text key_aliases (to_lower r) ≡ none → normalize_key_str r ≡ to_upper r
normalize_key_str_other r a =
    unfold normalize_key_str in rw (a, normalize_key_str) (to_upper-to_lower r)

module _ (r : Text) (full : is_empty r ≡ false) (unmodified : modifier_mask r ≡ none)
    (single : (contains_char b'+' r && not (text_eq r (b'+' ∷ []))) ≡ false) (solid : Solid r) where
  upper-IsKeyName :
      strip_prefix (text "code:") (to_lower r) ≡ none
      → match_text key_aliases (to_lower r) ≡ none
      → IsKeyName (to_upper (to_lower r))
  upper-IsKeyName h a = rw to_upper-to_lower (record {
    solid = Solid-to_upper r solid;
    nonempty = rw is_empty-to_upper full;
    no_modifier = unfold modifier_mask in rw to_lower-to_upper (unfold modifier_mask in unmodified);
    plain = rw (contains_char-to_upper r, plus-to_upper r) single;
    stable =
        unfold normalize_key in
        rw (any-not-all is_whitespace _ (Solid-to_upper r solid), to_lower-to_upper, h)
          (ap ok (normalize_key_str_other (to_upper r) (rw to_lower-to_upper a) ∙ to_upper_idem r));
  })

  normalize_key_str-IsKeyName :
      strip_prefix (text "code:") (to_lower r) ≡ none → IsKeyName (normalize_key_str r)
  normalize_key_str-IsKeyName h = elim (Option-cases (match_text key_aliases (to_lower r))) [
    | inl a ↦ unfold normalize_key_str in rw (a, normalize_key_str) (upper-IsKeyName h a)
    | inr (name, a) ↦
        unfold normalize_key_str in
        rw (a, normalize_key_str)
          (is_key_name_sound (text name) (
            match_text-all (λ (n : String). is_key_name (text n)) key_aliases (to_lower r) name a
              aliases_check))
  ]

normalize_key_cases :
    (r k : Text)
    → normalize_key r ≡ ok k
    → (has_whitespace r ≡ false)
      × ((keycode r ≡ ok k)
          ⊎ ((strip_prefix (text "code:") (to_lower r) ≡ none) × (normalize_key_str r ≡ k)))
unfolding normalize_key
normalize_key_cases r k h = ground arith

-- If a text is not empty, no modifier, and holds a `+` only if it is one, then what it is normalized
-- to, if anything, has these properties too, no white space, and is its own normal form.
pub normalize_key-IsKeyName :
    (r k : Text)
    → is_empty r ≡ false
    → modifier_mask r ≡ none
    → (contains_char b'+' r && not (text_eq r (b'+' ∷ []))) ≡ false
    → normalize_key r ≡ ok k
    → IsKeyName k
normalize_key-IsKeyName r k full unmodified single h =
    let (s, cases) = normalize_key_cases r k h in
    elim cases [
      | inl c ↦ keycode-IsKeyName r k c
      | inr (p, e) ↦ rw (← e) (
          normalize_key_str-IsKeyName r full unmodified single
            (all-not-any is_whitespace r (unfold has_whitespace in s)) p)
    ]
