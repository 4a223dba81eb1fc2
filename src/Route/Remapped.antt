-- ===== src/Route/Remapped.antt =====
-- src/layers/inspection.rs: what the rest of the route shows behind a remapper's finding.
use whykey.Prelude.{
  Bool, true, false, Text, List, [], ◌∷◌, map, all, none, some, ok, drop, ◌≡◌, refl, arith,
}
use whykey.Key.Combo.{KeyCombo, display, parse_query}
use whykey.Key.RoundTrip.{display_roundtrip}
use whykey.Route.Model.{Outcome, LayerResult, BindingEvidence}
use whykey.Route.Request.{InspectRequest}
use whykey.Route.Remap.{
  conditional_on_remap, remap_target, redirect, route_after_remapper, redirected_request,
  Downstream,
}

-- An outcome that does not say whether the key came or went on for sure.
unfoldable pub is_hedged : Outcome → Bool
is_hedged Outcome.pass = false
is_hedged Outcome.handled_and_passed = false
is_hedged Outcome.consumed = false
is_hedged Outcome.redirected = false
is_hedged _ = true

conditional_on_remap-hedged : (r : LayerResult) → is_hedged (conditional_on_remap r).outcome ≡ true
unfolding is_hedged conditional_on_remap
conditional_on_remap-hedged r = grind arith

all-hedged :
    (rs : List LayerResult)
    → all (λ (r : LayerResult). is_hedged r.outcome) (map conditional_on_remap rs) ≡ true
unfolding all
all-hedged [] = refl
all-hedged (r ∷ rs) = rw (conditional_on_remap-hedged r) (all-hedged rs)

parse_query-display :
    (input : Text) (target : KeyCombo)
    → parse_query input ≡ ok target
    → parse_query (display target) ≡ ok target
unfolding parse_query
parse_query-display input target h = (display_roundtrip input true target h).1

module _ {Termios : Type 0} (remapper : LayerResult) (request : InspectRequest Termios)
    (downstream : Downstream Termios) where
  -- Behind a remapper that redirects the key to something that is no key combination, no finding
  -- says for sure that the key passes, is consumed or is redirected.
  pub unparsed_redirect-hedged :
      remapper.outcome ≡ Outcome.redirected
      → remap_target remapper ≡ none
      → all
          (λ (r : LayerResult). is_hedged r.outcome)
          (drop 1 (route_after_remapper (some remapper) request downstream).0)
        ≡ true
  unparsed_redirect-hedged o t =
      unfold route_after_remapper in
      rw (o, t) (unfold redirect in all-hedged (downstream request).0)

  -- Behind a remapper that redirects the key to what whykey prints for a combination that some
  -- input parses to, the rest of the route is that of this combination, without the captured
  -- keycode.
  pub redirect-display :
      (input : Text) (target : KeyCombo) (binding : BindingEvidence)
      → remapper.outcome ≡ Outcome.redirected
      → remapper.binding ≡ some binding
      → binding.action ≡ some (display target)
      → parse_query input ≡ ok target
      → drop 1 (route_after_remapper (some remapper) request downstream).0
        ≡ (downstream (redirected_request request target)).0
  redirect-display input target binding o b a h =
      unfold route_after_remapper remap_target in
      rw (o, b, a) (rw (parse_query-display input target h) refl)
