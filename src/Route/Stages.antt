-- ===== src/Route/Stages.antt =====
-- src/layers/inspection.rs: one stage of the chain against one group of the specification.
use mathlib.Core.List.{append-nil, append_assoc}
use whykey.Prelude.{
  Bool, true, false, not, ◌||◌, List, [], ◌∷◌, ◌++◌, Option, any, ◌≡◌, refl, sym, ap, ◌∙◌,
  if◌then◌else◌, Bool-cases, inl, inr,
}
use whykey.Route.Model.{LayerResult, TerminalInput}
use whykey.Route.Accumulator.{
  ContinuationPolicy, append, check_deadline, should_stop, deadline_result,
}
use whykey.Route.Request.{InspectRequest, Adapters}
use whykey.Route.Chain.{
  Checkpoint, Clock, after_application, after_shell, Run, TargetEndpoint, inspect_shell,
  inspect_application, target_is_shell, select_target_endpoint, proceed, shell_stage,
  application_stage,
}
use whykey.Route.Spec.{
  Group, group_stops, shown, single, shell_groups, behind_session, Reports, complete, cut, findings,
}

module _ {clock : Clock} where
  pub Reports-prepend :
      (before : List LayerResult) {whole results : List LayerResult}
      → Reports clock whole results
      → Reports clock (before ++ whole) (before ++ results)
  Reports-prepend before (complete e) = complete (ap (λ (r : List LayerResult). before ++ r) e)
  Reports-prepend before (cut c seen rest t w r) =
      cut c (before ++ seen) rest t (rw w (sym (append_assoc before seen rest)))
        (rw r (sym (append_assoc before seen _)))

  pub proceed-Reports :
      (goes_on : Bool) (c : Checkpoint) (run : Run) (next : Run → Run) (rest : List LayerResult)
      → Reports clock (run.acc.results ++ rest) (next run).acc.results
      → Reports clock
          (run.acc.results ++ (if goes_on then rest else []))
          (proceed goes_on (clock c) run next).acc.results
  proceed-Reports false c run next rest h =
      unfold proceed in complete (sym (append-nil run.acc.results))
  proceed-Reports true c run next rest h = elim (Bool-cases (clock c)) [
    | inl t ↦ unfold proceed in rw t (cut c run.acc.results rest t refl refl)
    | inr f ↦ unfold proceed in rw f h
  ]

if-not {ℓ} : {A : Type ℓ} (b : Bool) (x y : A) → (if b then x else y) ≡ (if not b then y else x)
if-not true x y = refl
if-not false x y = refl

or-false : (b : Bool) → (b || false) ≡ b
or-false true = refl
or-false false = refl

-- One group is shown, and the rest of the route behind it.
module _ (group : Group) (before : List LayerResult) (force : Bool) where
  group-whole :
      (goes_on : Bool) (run : Run) (groups : List Group)
      → run.acc.results ≡ before ++ findings group
      → goes_on ≡ not (group_stops force group)
      → run.acc.results ++ (if goes_on then shown force groups else [])
        ≡ before ++ shown force (group ∷ groups)
  group-whole goes_on run groups e g =
      unfold shown in
      rw
        (
          e,
          g,
          append_assoc before (findings group) _,
          if-not (group_stops force group) [] (shown force groups),
        )
        refl

  -- The group that stops the route is the last.
  pub stopped-whole :
      (run : Run) (groups : List Group)
      → run.acc.results ≡ before ++ findings group
      → false ≡ not (group_stops force group)
      → run.acc.results ≡ before ++ shown force (group ∷ groups)
  stopped-whole run groups e g = sym (append-nil run.acc.results) ∙ group-whole false run groups e g

  pub group-Reports :
      {clock : Clock} (goes_on : Bool) (run : Run) (c : Checkpoint) (next : Run → Run)
      (groups : List Group)
      → run.acc.results ≡ before ++ findings group
      → goes_on ≡ not (group_stops force group)
      → Reports clock (run.acc.results ++ shown force groups) (next run).acc.results
      → Reports clock
          (before ++ shown force (group ∷ groups))
          (proceed goes_on (clock c) run next).acc.results
  group-Reports goes_on run c next groups e g h =
      rw (sym (group-whole goes_on run groups e g))
        (proceed-Reports goes_on c run next (shown force groups) h)

-- A run with one more finding.
abbrev pub added : Run → LayerResult → Run
added run result = record run { acc = record run.acc { results = run.acc.results ++ result ∷ [] } }

pub single-stops :
    (policy : ContinuationPolicy) (result : LayerResult) (force : Bool)
    → not (should_stop policy result force)
      ≡ not (group_stops force (record { policy = policy; first = result; others = [] }))
single-stops policy result force = unfold group_stops any in ap not (sym (or-false _))

if-same {ℓ} : {A : Type ℓ} (b : Bool) (x : A) → (if b then x else x) ≡ x
if-same true x = refl
if-same false x = refl

one-shown : (force : Bool) (result : LayerResult) → shown force (single result ∷ []) ≡ result ∷ []
one-shown force result =
    unfold shown in rw (if-same {A = List LayerResult} (group_stops force (single result)) []) refl

module _ {Termios : Type 0} (adapters : Adapters Termios) (request : InspectRequest Termios)
    (input : Option TerminalInput) (clock : Clock) where
  abbrev shell_result : LayerResult
  shell_result = inspect_shell adapters request.sequence_prefix input request.application_pid

  abbrev application : LayerResult
  application = inspect_application adapters request

  abbrev endpoint : TargetEndpoint
  endpoint = select_target_endpoint (target_is_shell adapters request) application

  shell_stage-Reports :
      (target : TargetEndpoint) (run : Run)
      → Reports clock
          (run.acc.results ++ shown run.acc.force_continue (shell_groups target shell_result))
          (shell_stage adapters request input clock target run).acc.results
  shell_stage-Reports TargetEndpoint.interactive_application run =
      unfold shell_stage shown shell_groups in complete (sym (append-nil run.acc.results))
  shell_stage-Reports TargetEndpoint.shell run = elim (Bool-cases (clock after_shell)) [
    | inl t ↦
        unfold shell_stage append check_deadline shell_groups in
        rw (t, one-shown run.acc.force_continue shell_result)
          (cut after_shell _ [] t (sym (append-nil _)) refl)
    | inr f ↦
        unfold shell_stage append check_deadline shell_groups in
        rw (f, one-shown run.acc.force_continue shell_result) (complete refl)
  ]

  pub application_stage-Reports :
      (run : Run)
      → Reports clock
          (run.acc.results ++ shown run.acc.force_continue (behind_session adapters request input))
          (application_stage adapters request input clock run).acc.results
  application_stage-Reports run =
      unfold application_stage append behind_session in
      group-Reports (single application) run.acc.results run.acc.force_continue _
        (added run application) after_application
        (shell_stage adapters request input clock endpoint) (shell_groups endpoint shell_result)
        refl (single-stops _ application run.acc.force_continue)
        (shell_stage-Reports endpoint (added run application))

pub halted-Reports :
    {clock : Clock} (whole : List LayerResult) (c : Checkpoint) (run : Run) (next : Run → Run)
    → run.acc.results ≡ whole
    → Reports clock whole (proceed false (clock c) run next).acc.results
halted-Reports whole c run next e = unfold proceed in complete e

pub ended-Reports :
    {clock : Clock} (whole : List LayerResult) (goes_on : Bool) (c : Checkpoint) (run : Run)
    → run.acc.results ≡ whole
    → Reports clock whole (proceed goes_on (clock c) run (λ (r : Run). r)).acc.results
ended-Reports whole false c run e = unfold proceed in complete e
ended-Reports {clock} whole true c run e = elim (Bool-cases (clock c)) [
  | inl t ↦
      unfold proceed in
      rw t (
        cut c whole [] t (sym (append-nil whole))
          (ap (λ (r : List LayerResult). r ++ deadline_result ∷ []) e))
  | inr f ↦ unfold proceed in rw f (complete e)
]
