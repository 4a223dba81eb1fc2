-- ===== src/Route/Accumulator.antt =====
-- src/layers/inspection.rs: when a finding halts the route, and the findings so far.
use whykey.Prelude.{Bool, true, false, not, List, [], ◌∷◌, ◌++◌, text, any, if◌then◌else◌}
use whykey.Route.Model.{LayerId, Outcome, LayerResult, new_result, intercepts, blocks_chain}

pub data ContinuationPolicy : Type 0 where
  stop_on_terminal_interception stop_on_blocking_result : ContinuationPolicy

abbrev policy_stops : ContinuationPolicy → LayerResult → Bool
policy_stops ContinuationPolicy.stop_on_terminal_interception result = intercepts result.outcome
policy_stops ContinuationPolicy.stop_on_blocking_result result = blocks_chain result

unfoldable pub should_stop : ContinuationPolicy → LayerResult → Bool → Bool
unfolding intercepts blocks_chain
should_stop policy result force_continue =
    if force_continue then false else policy_stops policy result

pub record RouteAccumulator : Type 0 where
  pub results : List LayerResult
  pub force_continue : Bool

unfoldable pub new_accumulator : Bool → RouteAccumulator
new_accumulator force_continue = record { results = []; force_continue = force_continue }

-- The accumulator with the finding, and whether the inspection goes on.
unfoldable pub append :
    RouteAccumulator → LayerResult → ContinuationPolicy → RouteAccumulator × Bool
append acc result policy = (
  record acc { results = acc.results ++ result ∷ [] },
  not (should_stop policy result acc.force_continue),
)

unfoldable pub intercepted : RouteAccumulator → Bool
intercepted acc = any (λ (r : LayerResult). intercepts r.outcome) acc.results

unfoldable pub deadline_result : LayerResult
unfolding new_result text
deadline_result =
    new_result (text "Diagnostic budget") LayerId.diagnostic Outcome.unavailable
      (text "static diagnostic deadline exceeded")
      (text "later layers were not queried"
        ∷ text "increase WHYKEY_DIAGNOSTIC_TIMEOUT_MS for this session if needed"
        ∷ [])

-- The first argument is the answer of `command::deadline_exceeded` at this check.
unfoldable pub check_deadline : Bool → RouteAccumulator → RouteAccumulator × Bool
check_deadline exceeded acc =
    if exceeded
    then (record acc { results = acc.results ++ deadline_result ∷ [] }, true)
    else (acc, false)
