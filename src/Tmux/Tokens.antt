-- ===== src/Tmux/Tokens.antt =====
-- src/layers/tmux.rs: the tokens of keys, as tmux writes them and as they are read.
use mathlib.Core.List.{append-nil, append_assoc}
use whykey.Prelude.{
  ℕ, Bool, true, false, Text, [], ◌∷◌, ◌++◌, some, ◌≡◌, refl, ◌∙◌, ap, is_whitespace, prepend_first,
  if◌then◌else◌, ◌==◌, Bool-cases, inl, inr,
}
use whykey.Tmux.Listing.{quoted_token, bare_token, split_key_token}

-- The text with a backslash in front of the characters that are escaped.
unfoldable pub escape : (ℕ → Bool) → Text → Text
escape escaped [] = []
escape escaped (c ∷ s) =
    let rest = escape escaped s in if escaped c then b'\\' ∷ c ∷ rest else c ∷ rest

-- Which characters have to be escaped in a bare token, and within quotes.
abbrev pub EscapesBare : (ℕ → Bool) → Type 0
EscapesBare escaped =
    (c : ℕ)
    → escaped c ≡ false
    → (is_whitespace c ≡ false) × ((c == b'\\') ≡ false) × ((c == b'"') ≡ false)

abbrev pub EscapesQuoted : (ℕ → Bool) → Type 0
EscapesQuoted escaped = (c : ℕ) → escaped c ≡ false → ((c == b'\\') ≡ false) × ((c == b'"') ≡ false)

bare_token-plain :
    (key : Text) (c : ℕ) (s : Text)
    → is_whitespace c ≡ false
    → (c == b'\\') ≡ false
    → bare_token key (c ∷ s) ≡ bare_token (key ++ c ∷ []) s
unfolding bare_token
bare_token-plain key c [] w e = rw (e, w) refl
bare_token-plain key c (d ∷ s) w e = rw (e, w) refl

bare_token-space : (key s : Text) → bare_token key (b' ' ∷ s) ≡ some (key, b' ' ∷ s)
unfolding bare_token is_whitespace
bare_token-space key [] = refl
bare_token-space key (d ∷ s) = refl

bare_token-escape :
    (escaped : ℕ → Bool) (key s rest : Text)
    → EscapesBare escaped
    → bare_token key (escape escaped s ++ b' ' ∷ rest) ≡ some (key ++ s, b' ' ∷ rest)
unfolding escape bare_token
bare_token-escape escaped key [] rest e = rw (append-nil key) (bare_token-space key rest)
bare_token-escape escaped key (c ∷ s) rest e =
    let onward =
      bare_token-escape escaped (key ++ c ∷ []) s rest e
      ∙ ap (λ (k : Text). some (k, b' ' ∷ rest)) (append_assoc key (c ∷ []) s) in
    elim (Bool-cases (escaped c)) [
      | inl h ↦ rw h onward
      | inr h ↦
          let (w, b, q) = e c h in
          rw h (bare_token-plain key c (escape escaped s ++ b' ' ∷ rest) w b ∙ onward)
    ]

quoted_token-plain :
    (c : ℕ) (s rest : Text)
    → (c == b'\\') ≡ false
    → (c == b'"') ≡ false
    → quoted_token (c ∷ (s ++ b'"' ∷ rest)) ≡ prepend_first c (quoted_token (s ++ b'"' ∷ rest))
unfolding quoted_token
quoted_token-plain c [] rest b q = rw (b, q) refl
quoted_token-plain c (d ∷ s) rest b q = rw (b, q) refl

quoted_token-quote : (rest : Text) → quoted_token (b'"' ∷ rest) ≡ some ([], rest)
unfolding quoted_token
quoted_token-quote [] = refl
quoted_token-quote (d ∷ s) = refl

quoted_token-escape :
    (escaped : ℕ → Bool) (s rest : Text)
    → EscapesQuoted escaped
    → quoted_token (escape escaped s ++ b'"' ∷ rest) ≡ some (s, rest)
unfolding escape quoted_token
quoted_token-escape escaped [] rest e = quoted_token-quote rest
quoted_token-escape escaped (c ∷ s) rest e =
    let onward = ap (prepend_first c) (quoted_token-escape escaped s rest e) in
    elim (Bool-cases (escaped c)) [
      | inl h ↦ rw h onward
      | inr h ↦
          let (b, q) = e c h in rw h (quoted_token-plain c (escape escaped s) rest b q ∙ onward)
    ]

-- How tmux writes a key: with escapes, or within quotes.
unfoldable pub key_token : Bool → (ℕ → Bool) → Text → Text
unfolding escape
key_token quoted escaped key =
    if quoted then b'"' ∷ (escape escaped key ++ b'"' ∷ []) else escape escaped key

abbrev pub Escapes : Bool → (ℕ → Bool) → Type 0
Escapes true = EscapesQuoted
Escapes false = EscapesBare

bare_start :
    (escaped : ℕ → Bool) (c : ℕ) (s rest : Text)
    → EscapesBare escaped
    → split_key_token (escape escaped (c ∷ s) ++ rest)
      ≡ bare_token [] (escape escaped (c ∷ s) ++ rest)
unfolding split_key_token escape
bare_start escaped c s rest e = elim (Bool-cases (escaped c)) [
  | inl h ↦ rw h refl
  | inr h ↦ let (w, b, q) = e c h in rw h (rw q refl)
]

pub split_key_token-key_token :
    (quoted : Bool) (escaped : ℕ → Bool) (c : ℕ) (s rest : Text)
    → Escapes quoted escaped
    → split_key_token (key_token quoted escaped (c ∷ s) ++ b' ' ∷ rest) ≡ some (c ∷ s, b' ' ∷ rest)
unfolding key_token split_key_token
split_key_token-key_token true escaped c s rest e =
    ap quoted_token (append_assoc (escape escaped (c ∷ s)) (b'"' ∷ []) (b' ' ∷ rest))
    ∙ quoted_token-escape escaped (c ∷ s) (b' ' ∷ rest) e
split_key_token-key_token false escaped c s rest e =
    bare_start escaped c s (b' ' ∷ rest) e ∙ bare_token-escape escaped [] (c ∷ s) rest e
