-- ===== src/Route/Outcomes.antt =====
-- src/layers/model.rs: the single outcome against the legacy pair of status and propagation.
use whykey.Prelude.{true, ◌≡◌, ◌↔◌, ◌⊎◌, arith}
use whykey.Route.Model.{
  Outcome, LayerStatus, Propagation, LayerResult, from_parts, as_parts, intercepts, status,
  propagation, continues_chain, blocks_chain,
}

-- The outcome that the printed pair can tell: a target without an adapter is only unknown.
abbrev pub printable_outcome : Outcome → Outcome
printable_outcome Outcome.unadapted_target = Outcome.unknown
printable_outcome outcome = outcome

-- The pair that a report prints for an outcome reads back as that outcome, but for the target with
-- no adapter, which reads back as unknown.
pub from_parts-as_parts :
    (o : Outcome) → from_parts (as_parts o).0 (as_parts o).1 ≡ printable_outcome o
unfolding from_parts as_parts
from_parts-as_parts o = grind arith

-- A layer lets the key continue exactly when the propagation that its report prints says so, and it
-- intercepts the key exactly when that says stops or redirected. It blocks the chain when it
-- intercepts or when the printed status is unavailable, and no layer both continues and blocks.
pub propagation_agrees :
    (r : LayerResult)
    → ((continues_chain r ≡ true) ↔ (propagation r ≡ Propagation.continues))
      × ((intercepts r.outcome ≡ true)
          ↔ ((propagation r ≡ Propagation.stops) ⊎ (propagation r ≡ Propagation.redirected)))
      × ((blocks_chain r ≡ true)
          ↔ ((intercepts r.outcome ≡ true) ⊎ (status r ≡ LayerStatus.unavailable)))
      × ¬ ((continues_chain r ≡ true) × (blocks_chain r ≡ true))
unfolding continues_chain blocks_chain propagation status intercepts
propagation_agrees r = grind arith
