-- ===== src/Route/Model.antt =====
-- src/layers/model.rs: the outcome of a layer, its legacy pair, and a layer's finding.
use whykey.Prelude.{
  ℕ, Bool, true, false, ◌||◌, Text, List, [], ◌++◌, Option, none, text, text_eq, contains_char,
  is_some_and,
}

pub data LayerId : Type 0 where
  remapper compositor terminal tty ime multiplexer application shell session diagnostic : LayerId
  unknown : LayerId

pub data Outcome : Type 0 where
  pass handled_and_passed consumed redirected handled_uncertain uncertain_continues : Outcome
  unknown unavailable unadapted_target : Outcome

pub data LayerStatus : Type 0 where
  not_handled handled indeterminate unavailable : LayerStatus

pub data Propagation : Type 0 where
  continues stops redirected indeterminate : Propagation

-- `Outcome::from_parts`; the clauses are the arms, in their order.
unfoldable pub from_parts : LayerStatus → Propagation → Outcome
from_parts LayerStatus.not_handled Propagation.continues = Outcome.pass
from_parts LayerStatus.handled Propagation.continues = Outcome.handled_and_passed
from_parts LayerStatus.handled Propagation.stops = Outcome.consumed
from_parts _ Propagation.redirected = Outcome.redirected
from_parts LayerStatus.unavailable _ = Outcome.unavailable
from_parts LayerStatus.handled Propagation.indeterminate = Outcome.handled_uncertain
from_parts LayerStatus.indeterminate Propagation.continues = Outcome.uncertain_continues
from_parts _ _ = Outcome.unknown

-- `Outcome::as_parts`
unfoldable pub as_parts : Outcome → LayerStatus × Propagation
as_parts Outcome.pass = (LayerStatus.not_handled, Propagation.continues)
as_parts Outcome.handled_and_passed = (LayerStatus.handled, Propagation.continues)
as_parts Outcome.consumed = (LayerStatus.handled, Propagation.stops)
as_parts Outcome.redirected = (LayerStatus.handled, Propagation.redirected)
as_parts Outcome.handled_uncertain = (LayerStatus.handled, Propagation.indeterminate)
as_parts Outcome.uncertain_continues = (LayerStatus.indeterminate, Propagation.continues)
as_parts Outcome.unknown = (LayerStatus.indeterminate, Propagation.indeterminate)
as_parts Outcome.unadapted_target = (LayerStatus.indeterminate, Propagation.indeterminate)
as_parts Outcome.unavailable = (LayerStatus.unavailable, Propagation.indeterminate)

-- `matches!(outcome, Outcome::Consumed | Outcome::Redirected)`
unfoldable pub intercepts : Outcome → Bool
intercepts Outcome.consumed = true
intercepts Outcome.redirected = true
intercepts _ = false

pub data InputConfidence : Type 0 where
  configured predicted observed : InputConfidence

pub record TerminalInput : Type 0 where
  pub bytes : List ℕ
  pub description : Text
  pub confidence : InputConfidence

pub data UncertaintyReason : Type 0 where
  unverified_terminal_bytes unresolved_mode opaque_dispatcher : UncertaintyReason
  endpoint_unavailable modifier_ambiguity unverified_default : UncertaintyReason
  unresolved_binding_key : ℕ → Bool → UncertaintyReason

pub data BindingScope : Type 0 where
  universal : BindingScope
  submap : Text → BindingScope
  unknown : BindingScope

pub record SourceLocation : Type 0 where
  pub file : Text
  pub line : Option ℕ

pub record BindingEvidence : Type 0 where
  pub dispatcher : Option Text
  pub action : Option Text
  pub description : Option Text
  pub submap : Option Text
  pub scope : BindingScope
  pub source : Option SourceLocation
  pub has_universal_match : Bool
  pub uncertainty : Option UncertaintyReason

pub data EvidenceTier : Type 0 where
  observed live_query config_file default : EvidenceTier

pub record LayerResult : Type 0 where
  pub layer : Text
  pub id : LayerId
  pub outcome : Outcome
  pub summary : Text
  pub details : List Text
  pub verbose_details : List Text
  pub binding : Option BindingEvidence
  pub dead_key : Option Text
  pub tier : Option EvidenceTier
  pub endpoint : Bool
  pub also_fires : List BindingEvidence

-- `LayerResult::new`
unfoldable pub new_result : Text → LayerId → Outcome → Text → List Text → LayerResult
new_result layer id outcome summary details = record {
  layer = layer;
  id = id;
  outcome = outcome;
  summary = summary;
  details = details;
  verbose_details = [];
  binding = none;
  dead_key = none;
  tier = none;
  endpoint = false;
  also_fires = [];
}

unfoldable pub status : LayerResult → LayerStatus
unfolding as_parts
status result = (as_parts result.outcome).0

unfoldable pub propagation : LayerResult → Propagation
unfolding as_parts
propagation result = (as_parts result.outcome).1

abbrev outcome_continues : Outcome → Bool
outcome_continues Outcome.pass = true
outcome_continues Outcome.handled_and_passed = true
outcome_continues Outcome.uncertain_continues = true
outcome_continues _ = false

-- `LayerResult::continues`
unfoldable pub continues_chain : LayerResult → Bool
continues_chain result = outcome_continues result.outcome

abbrev outcome_blocks : Outcome → Bool
outcome_blocks Outcome.consumed = true
outcome_blocks Outcome.redirected = true
outcome_blocks Outcome.unavailable = true
outcome_blocks _ = false

unfoldable pub blocks_chain : LayerResult → Bool
blocks_chain result = outcome_blocks result.outcome

unfoldable pub all_details : LayerResult → List Text
all_details result = result.details ++ result.verbose_details

-- `BindingEvidence::dispatcher_is_opaque`
unfoldable pub dispatcher_is_opaque : Text → Bool
unfolding text text_eq contains_char
dispatcher_is_opaque dispatcher = text_eq dispatcher (text "__lua") || contains_char b':' dispatcher

unfoldable pub is_opaque : BindingEvidence → Bool
unfolding dispatcher_is_opaque
is_opaque evidence = is_some_and dispatcher_is_opaque evidence.dispatcher

abbrev scope_is_universal : BindingScope → Bool
scope_is_universal BindingScope.universal = true
scope_is_universal _ = false

unfoldable pub includes_universal_match : BindingEvidence → Bool
includes_universal_match evidence =
    evidence.has_universal_match || scope_is_universal evidence.scope
