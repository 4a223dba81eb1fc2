-- ===== src/Listen/Events.antt =====
-- src/listen/protocol.rs: the lifecycle marker of a Kitty sequence, and the event that is reported.
use whykey.Prelude.{
  ℕ, Bool, true, Text, List, [], ◌∷◌, Option, none, some, split, parse_u32, from_utf8, ◌≡◌, refl,
  sym, ◌∙◌, ap, arith, inl, inr, Option-cases, &&-true, ◌==◌, ==_iff, if◌then◌else◌,
}
use whykey.Listen.Fields.{
  KeyEventType, last, without_last, and_then, second_field, event_of_parts, event_of_body,
  event_name, csi_u_body, ends_in_u, kitty_event_type,
}
use whykey.Listen.Protocol.{
  Decoded, modifier_parts, key_fields, decode_event, decode_kitty, decode_key_field, decode_csi,
  decode_escape, decode_key,
}
use whykey.Listen.Observed.{undecoded, decode_bytes}

and_then-some {ℓ κ} :
    {A : Type ℓ} {B : Type κ} (o : Option A) (next : A → Option B) (b : B)
    → and_then o next ≡ some b
    → (a : A) × (o ≡ some a) × (next a ≡ some b)
and_then-some none next b h = cc
and_then-some (some a) next b h = (a, refl, h)

event_type-some : (a d : Decoded) → some a ≡ some d → a.event_type ≡ d.event_type
event_type-some a d h = cc

key_fields-second_field :
    (fields : List Text) (found : Text × Text) (field : Text)
    → key_fields fields ≡ some found
    → second_field fields ≡ some field
    → found.1 ≡ field
key_fields-second_field [] found field h s = cc
key_fields-second_field (a ∷ []) found field h s = cc
key_fields-second_field (a ∷ b ∷ []) found field h s = grind arith
key_fields-second_field (a ∷ b ∷ c ∷ []) found field h s = grind arith
key_fields-second_field (a ∷ b ∷ c ∷ d ∷ rest) found field h s = cc

modifier_parts-second_field :
    (parts : List Text) (found : Text × Text) (part : Text)
    → modifier_parts parts ≡ some found
    → second_field parts ≡ some part
    → found.1 ≡ part
modifier_parts-second_field [] found part h s = cc
modifier_parts-second_field (a ∷ []) found part h s = cc
modifier_parts-second_field (a ∷ b ∷ []) found part h s = grind arith
modifier_parts-second_field (a ∷ b ∷ c ∷ rest) found part h s = cc

decode_event-event_of_parts :
    (field : Text) (found : ℕ × KeyEventType) (event : KeyEventType)
    → decode_event field ≡ some found
    → event_of_parts (split b':' field) ≡ some event
    → found.1 ≡ event
unfolding decode_event
decode_event-event_of_parts field found event h e =
    let (parts, p, h1) = and_then-some (modifier_parts (split b':' field)) _ found h in
    let (modifiers, m, h2) = and_then-some (parse_u32 parts.0) _ found h1 in
    let (named, n, h3) = and_then-some (event_name parts.1) _ found h2 in
    let (part, s, e1) = and_then-some (second_field (split b':' field)) event_name event e in
    let same = modifier_parts-second_field (split b':' field) parts part p s in grind arith

guarded :
    (p : Bool) (o : Option Text) (body : Text)
    → (if p then o else none) ≡ some body
    → (p ≡ true) × (o ≡ some body)
guarded p o body h = ground arith

ends_in_u-some : (o : Option ℕ) → ends_in_u o ≡ true → o ≡ some b'u'
ends_in_u-some none h = ground arith
ends_in_u-some (some b) h = ap some ((==_iff b b'u').0 h)

csi_u_body-one : (b : ℕ) → csi_u_body (b ∷ []) ≡ none
unfolding csi_u_body last
csi_u_body-one b = ground arith

csi_u_body-two : (b c : ℕ) → csi_u_body (b ∷ c ∷ []) ≡ none
unfolding csi_u_body last
csi_u_body-two b c = ground arith

csi_u_body-parts :
    (b c x : ℕ) (rest : List ℕ) (body : Text)
    → csi_u_body (b ∷ c ∷ x ∷ rest) ≡ some body
    → (b ≡ 0x1b)
      × (c ≡ b'[')
      × (last (x ∷ rest) ≡ some b'u')
      × (from_utf8 (without_last (x ∷ rest)) ≡ some body)
unfolding csi_u_body last
csi_u_body-parts b c x rest body h =
    let (test, decoded) = guarded _ (from_utf8 (without_last (x ∷ rest))) body h in
    let (ends, starts) = &&-true (ends_in_u (last (x ∷ rest))) _ test in
    let (escape, bracket) = &&-true (b == 0x1b) _ starts in
    (
      (==_iff b 0x1b).0 escape,
      (==_iff c b'[').0 bracket,
      ends_in_u-some (last (x ∷ rest)) ends,
      decoded,
    )

module _ (upper : ℕ → Text) where
  decode_kitty-event_of_body :
      (body : Text) (d : Decoded) (event : KeyEventType)
      → decode_kitty upper body ≡ some d
      → event_of_body body ≡ some event
      → d.event_type ≡ event
  unfolding decode_kitty
  decode_kitty-event_of_body body d event h e =
      let (fields, f, h1) = and_then-some (key_fields (split b';' body)) _ d h in
      let (key, k, h2) = and_then-some (decode_key_field upper fields.0) _ d h1 in
      let (found, m, h3) = and_then-some (decode_event fields.1) _ d h2 in
      let (field, s, e1) = and_then-some (second_field (split b';' body)) _ event e in
      let same = key_fields-second_field (split b';' body) fields field f s in
      let marked : decode_event field ≡ some found = rw (← same) m in
      sym (event_type-some _ d h3) ∙ decode_event-event_of_parts field found event marked e1

  -- A sequence with CSI before and `u` behind is decoded by its body.
  pub decode_csi-decode_kitty :
      (bytes : List ℕ) (body : Text)
      → last bytes ≡ some b'u'
      → from_utf8 (without_last bytes) ≡ some body
      → decode_csi upper bytes ≡ decode_kitty upper body
  unfolding decode_csi
  decode_csi-decode_kitty bytes body l f = rw (l, f) refl

  pub decode_key-decode_csi :
      (bytes : List ℕ) → decode_key upper (0x1b ∷ b'[' ∷ bytes) ≡ decode_csi upper bytes
  unfolding decode_key decode_escape
  decode_key-decode_csi bytes = refl

  decode_key-csi_u_body :
      (bytes : List ℕ) (body : Text)
      → csi_u_body bytes ≡ some body
      → decode_key upper bytes ≡ decode_kitty upper body
  unfolding decode_key decode_escape
  decode_key-csi_u_body [] body h = absurd (unfold csi_u_body last in ground arith)
  decode_key-csi_u_body (b ∷ []) body h = absurd (let no = csi_u_body-one b in cc)
  decode_key-csi_u_body (b ∷ c ∷ []) body h = absurd (let no = csi_u_body-two b c in cc)
  decode_key-csi_u_body (b ∷ c ∷ x ∷ rest) body h =
      let (escape, bracket, l, f) = csi_u_body-parts b c x rest body h in
      rw (escape, bracket) (decode_csi-decode_kitty (x ∷ rest) body l f)

  -- If the program finds a lifecycle marker, the event that is reported has that type, whether or not
  -- its key is known.
  pub decode_bytes-kitty_event_type :
      (bytes : List ℕ) (event : KeyEventType)
      → kitty_event_type bytes ≡ some event
      → (decode_bytes upper bytes).event_type ≡ event
  unfolding decode_bytes undecoded kitty_event_type
  decode_bytes-kitty_event_type bytes event h =
      let (body, b, e) = and_then-some (csi_u_body bytes) event_of_body event h in
      elim (Option-cases (decode_key upper bytes)) [
        | inl n ↦ rw (n, b, e) refl
        | inr (d, k) ↦ rw k (
            decode_kitty-event_of_body body d event (sym (decode_key-csi_u_body bytes body b) ∙ k)
              e)
      ]
