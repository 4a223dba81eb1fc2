-- ===== src/Hyprland/Runs.antt =====
-- src/layers/hyprland/matching.rs: one key press, walked through the matching bindings.
use whykey.Prelude.{true, false, List, [], ◌∷◌, ◌≡◌}
use whykey.Hyprland.Binding.{Binding, BindingMatch, runs_on_press}
use whykey.Hyprland.Flow.{
  FlowState, DispatcherOutcome, plain_outcome, is_pass, may_not_match, passed_over, dispatched,
}

-- What a dispatcher that runs may answer: `pass` hands the key to another window, an auto-consuming
-- binding's dispatcher may fail, any other one succeeds.
pub data Answers (b : Binding) (o : DispatcherOutcome) : Type 0 where
  hands_on :
      is_pass b ≡ true
      → o ≡ record { success = true; passes = true; redirects = true }
      → Answers b o
  succeeds : is_pass b ≡ false → o ≡ plain_outcome true → Answers b o
  fails : is_pass b ≡ false → b.auto_consuming ≡ true → o ≡ plain_outcome false → Answers b o

-- What one binding may do to the state of a key press.
pub data Step (b : Binding) (s t : FlowState) : Type 0 where
  over : s.processing ≡ false → t ≡ s → Step b s t
  waits : s.processing ≡ true → runs_on_press b ≡ false → t ≡ passed_over b s → Step b s t
  runs :
      (o : DispatcherOutcome)
      → s.processing ≡ true
      → runs_on_press b ≡ true
      → Answers b o
      → t ≡ dispatched b s o
      → Step b s t

-- A key press walks the matches in their order. One that is not certain may not match at all.
pub data Runs : List BindingMatch → FlowState → FlowState → Type 0 where
  done : {s : FlowState} → Runs [] s s
  misses :
      {m : BindingMatch} {ms : List BindingMatch} {s t : FlowState}
      → may_not_match m.certainty ≡ true
      → Runs ms s t
      → Runs (m ∷ ms) s t
  steps :
      {m : BindingMatch} {ms : List BindingMatch} {s u t : FlowState}
      → Step m.binding s u
      → Runs ms u t
      → Runs (m ∷ ms) s t
