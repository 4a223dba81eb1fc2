-- ===== src/Key/SequenceRoundTrip.antt =====
-- src/key.rs: the parser of sequences on what their display prints.
use mathlib.Core.List.{append-nil}
use whykey.Prelude.{
  ℕ, suc, ◌<◌, String, true, false, not, Text, List, [], ◌∷◌, ◌++◌, map, ok, text, words_from,
  keep_word, split_whitespace, length, ltb, ◌==◌, ◌≡◌, refl, sym, ap, ◌∙◌, inl, inr, arith,
  Bool-cases, >>=-ok, ok-injective, Solid, all, all-append, is_whitespace, is_empty, bit_and,
}
use whykey.Key.Modifiers.{display_order}
use whykey.Key.Combo.{KeyCombo, compact_display, parse_query}
use whykey.Key.Strip.{compact, joined}
use whykey.Key.Displays.{compact_display-joined, joined-full}
use whykey.Key.Parsed.{IsParsed, parse_combo-IsParsed}
use whykey.Key.RoundTrip.{parse_combo-compact_display_parsed}
use whykey.Key.Sequence.{
  KeySequence, max_sequence_length, parse_token, parse_tokens, checked_tokens, parse_sequence,
  display_rest, display_steps, display_sequence,
}

words_from-append :
    (w s : Text) → Solid w → words_from (w ++ s) ≡ (w ++ (words_from s).0, (words_from s).1)
unfolding words_from all
words_from-append [] s h = refl
words_from-append (c ∷ w) s h = ground (arith, words_from-append w s)

keep_word-full : (w : Text) (ws : List Text) → is_empty w ≡ false → keep_word w ws ≡ w ∷ ws
unfolding keep_word is_empty
keep_word-full [] ws h = ground arith
keep_word-full (c ∷ w) ws h = refl

split_whitespace-word : (w : Text) → Solid w → is_empty w ≡ false → split_whitespace w ≡ w ∷ []
split_whitespace-word w h e =
    ap split_whitespace (sym (append-nil w))
    ∙ (unfold split_whitespace in
        rw (words_from-append w [] h)
          (unfold words_from in rw (append-nil w) (keep_word-full w [] e)))

split_whitespace-step :
    (w s : Text)
    → Solid w
    → is_empty w ≡ false
    → split_whitespace (w ++ 32 ∷ s) ≡ w ∷ split_whitespace s
split_whitespace-step w s h e =
    unfold split_whitespace in
    rw (words_from-append w (32 ∷ s) h)
      (unfold words_from is_whitespace in rw (append-nil w) (keep_word-full w _ e))

-- Every name that a display writes is free of whitespace.
abbrev AllSolid : List (ℕ × String) → Type 0
AllSolid [] = Unit {0}
AllSolid ((mask, name) ∷ rest) = Solid (text name) × AllSolid rest

display_order-AllSolid : AllSolid display_order
unfolding all is_whitespace text
display_order-AllSolid = (refl, (refl, (refl, (refl, (refl, (refl, (refl, (refl, tt))))))))

plus-Solid : (s : Text) → Solid s → Solid (b'+' ∷ s)
unfolding all is_whitespace
plus-Solid s h = h

joined-Solid :
    (m : ℕ) (order : List (ℕ × String)) (k : Text)
    → AllSolid order
    → Solid k
    → Solid (joined compact [] m order k)
unfolding joined
joined-Solid m [] k a h = h
joined-Solid m ((mask, name) ∷ rest) k a h = elim (Bool-cases (bit_and m mask == 0)) [
  | inl e ↦ rw e (joined-Solid m rest k a.1 h)
  | inr e ↦ rw e (
      all-append (λ c. not (is_whitespace c)) (text name) (b'+' ∷ joined compact [] m rest k) a.0
        (plus-Solid _ (joined-Solid m rest k a.1 h)))
]

-- A step that a query can name.
abbrev Query : KeyCombo → Type 0
Query c = parse_query (compact_display c) ≡ ok c

-- The display of a sequence has one word for each step.
abbrev pub displays : List KeyCombo → List Text
displays = map compact_display

compact_display-Solid : (c : KeyCombo) → IsParsed true c → Solid (compact_display c)
compact_display-Solid c p =
    rw (compact_display-joined c p.typed)
      (joined-Solid c.modifiers display_order c.key display_order-AllSolid p.named.solid)

compact_display-full : (c : KeyCombo) → IsParsed true c → is_empty (compact_display c) ≡ false
compact_display-full c p =
    rw (compact_display-joined c p.typed) (joined-full compact c.modifiers c.key p.named)

-- Steps that a query can name.
abbrev AllParsed : List KeyCombo → Type 0
AllParsed [] = Unit {0}
AllParsed (c ∷ cs) = IsParsed true c × AllParsed cs

split_whitespace-display :
    (c : KeyCombo) (cs : List KeyCombo)
    → IsParsed true c
    → AllParsed cs
    → split_whitespace (compact_display c ++ display_rest cs) ≡ displays (c ∷ cs)
unfolding display_rest
split_whitespace-display c [] p ps = rw (append-nil (compact_display c)) (
    split_whitespace-word (compact_display c) (compact_display-Solid c p)
      (compact_display-full c p))
split_whitespace-display c (d ∷ ds) p ps = rw (
  split_whitespace-step (compact_display c) (compact_display d ++ display_rest ds)
      (compact_display-Solid c p) (compact_display-full c p),
  split_whitespace-display d ds ps.0 ps.1,
)

parse_token-IsParsed :
    (index steps : ℕ) (token : Text) (c : KeyCombo)
    → parse_token index steps token ≡ ok c
    → IsParsed true c
unfolding parse_token parse_query
parse_token-IsParsed index steps token c h = parse_combo-IsParsed token true c (ground arith)

parse_tokens-AllParsed :
    (index steps : ℕ) (tokens : List Text) (cs : List KeyCombo)
    → parse_tokens index steps tokens ≡ ok cs
    → AllParsed cs × (length cs ≡ length tokens)
unfolding parse_tokens
parse_tokens-AllParsed index steps [] cs h = rw (← ok-injective h) (tt, refl)
parse_tokens-AllParsed index steps (token ∷ tokens) cs h =
    let (c, hc, h') = >>=-ok (parse_token index steps token) _ h in
    let (ds, hds, e) = >>=-ok (parse_tokens (suc index) steps tokens) _ h' in
    let (ps, n) = parse_tokens-AllParsed (suc index) steps tokens ds hds in
    rw (← ok-injective e) ((parse_token-IsParsed index steps token c hc, ps), ap suc n)

parse_token-display :
    (index steps : ℕ) (c : KeyCombo)
    → IsParsed true c
    → parse_token index steps (compact_display c) ≡ ok c
unfolding parse_token parse_query
parse_token-display index steps c p =
    rw (parse_token, parse_query, parse_combo-compact_display_parsed true c p)

parse_tokens-displays :
    (index steps : ℕ) (cs : List KeyCombo)
    → AllParsed cs
    → parse_tokens index steps (displays cs) ≡ ok cs
unfolding parse_tokens
parse_tokens-displays index steps [] ps = refl
parse_tokens-displays index steps (c ∷ cs) ps =
    rw (parse_token-display index steps c ps.0, parse_tokens-displays (suc index) steps cs ps.1)

length-displays : (cs : List KeyCombo) → length (displays cs) ≡ length cs
length-displays [] = refl
length-displays (c ∷ cs) = ap suc (length-displays cs)

-- The tokens are neither none nor too many, and each is a step.
checked_tokens-cases :
    (tokens : List Text) (sequence : KeySequence)
    → checked_tokens tokens ≡ ok sequence
    → (0 < length tokens)
      × (ltb max_sequence_length (length tokens) ≡ false)
      × (parse_tokens 0 (length tokens) tokens ≡ ok sequence.steps)
unfolding checked_tokens
checked_tokens-cases [] sequence h = ground arith
checked_tokens-cases (token ∷ tokens) sequence h = ground arith

checked_tokens-displays :
    (cs : List KeyCombo)
    → AllParsed cs
    → 0 < length cs
    → ltb max_sequence_length (length cs) ≡ false
    → checked_tokens (displays cs) ≡ ok (record { steps = cs })
unfolding checked_tokens
checked_tokens-displays [] ps pos small = elim pos [ ]
checked_tokens-displays (c ∷ cs) ps pos small =
    rw (length-displays cs, small, parse_tokens-displays 0 (suc (length cs)) (c ∷ cs) ps)

split_whitespace-display_steps :
    (cs : List KeyCombo) → AllParsed cs → split_whitespace (display_steps cs) ≡ displays cs
unfolding display_steps
split_whitespace-display_steps [] ps = unfold split_whitespace words_from keep_word in refl
split_whitespace-display_steps (c ∷ cs) ps = split_whitespace-display c cs ps.0 ps.1

-- If a text parses to a sequence of combinations, then the display of that sequence parses to it
-- again.
pub display_sequence_roundtrip :
    (input : Text) (sequence : KeySequence)
    → parse_sequence input ≡ ok sequence
    → parse_sequence (display_sequence sequence) ≡ ok sequence
display_sequence_roundtrip input sequence h =
    let (pos, small, parsed) =
      checked_tokens-cases (split_whitespace input) sequence (unfold parse_sequence in h) in
    let (ps, n) = parse_tokens-AllParsed 0 _ _ sequence.steps parsed in
    unfold parse_sequence display_sequence in
    rw (split_whitespace-display_steps sequence.steps ps)
      (checked_tokens-displays sequence.steps ps (rw n pos) (rw n small))
