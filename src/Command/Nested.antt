-- ===== src/Command/Nested.antt =====
-- src/command.rs: deadlines one inside the other, and the budget against the deadline.
use whykey.Prelude.{
  ℕ, ◌+◌, ◌≤◌, Bool, true, false, List, [], ◌∷◌, Option, none, some, all, all-append, leb, ◌≡◌, ◌↔◌,
  refl, ◌∙◌, arith,
}
use whykey.Command.Deadline.{
  requested_deadline, effective_deadline, with_deadline, deadline_exceeded, deadline_remaining,
  query_budget, Task, Tasks, check, nested, done, next, run_task, run_tasks,
}

-- A deadline that is there and no later, if there is one outside.
abbrev pub within : Option ℕ → Option ℕ → Bool
within none seen = true
within (some outer) none = false
within (some outer) (some seen) = leb seen outer

within_refl : (d : Option ℕ) → within d d ≡ true
within_refl none = refl
within_refl (some at) = ground arith

within-effective_deadline :
    (d : Option ℕ) (requested : ℕ) (seen : Option ℕ)
    → within (some (effective_deadline d requested)) seen ≡ true
    → within d seen ≡ true
unfolding effective_deadline
within-effective_deadline none requested seen h = refl
within-effective_deadline (some outer) requested none h = ground arith
within-effective_deadline (some outer) requested (some at) h = ground arith

all-within :
    (d : Option ℕ) (requested : ℕ) (seen : List (Option ℕ))
    → all (within (some (effective_deadline d requested))) seen ≡ true
    → all (within d) seen ≡ true
unfolding all
all-within d requested [] h = refl
all-within d requested (s ∷ ss) h =
    ground (arith, all-within d requested ss, within-effective_deadline d requested s)

run_task-restores :
    (checked_add : ℕ → ℕ → Option ℕ) (task : Task) (d : Option ℕ)
    → (run_task checked_add task d).1 ≡ d
unfolding run_task with_deadline
run_task-restores checked_add check d = refl
run_task-restores checked_add (nested now duration tasks) d = refl

run_tasks-restores :
    (checked_add : ℕ → ℕ → Option ℕ) (tasks : Tasks) (d : Option ℕ)
    → (run_tasks checked_add tasks d).1 ≡ d
unfolding run_tasks
run_tasks-restores checked_add done d = refl
run_tasks-restores checked_add (next task tasks) d =
    run_tasks-restores checked_add tasks _ ∙ run_task-restores checked_add task d

mutual
  unfolding run_tasks with_deadline all

  run_task-within :
      (checked_add : ℕ → ℕ → Option ℕ) (task : Task) (d : Option ℕ)
      → all (within d) (run_task checked_add task d).0 ≡ true
  run_task-within checked_add check d = rw (within_refl d) refl
  run_task-within checked_add (nested now duration tasks) d =
      all-within d (requested_deadline checked_add now duration) _ (
        run_tasks-within checked_add tasks
          (some (effective_deadline d (requested_deadline checked_add now duration))))

  run_tasks-within :
      (checked_add : ℕ → ℕ → Option ℕ) (tasks : Tasks) (d : Option ℕ)
      → all (within d) (run_tasks checked_add tasks d).0 ≡ true
  run_tasks-within checked_add done d = refl
  run_tasks-within checked_add (next task tasks) d =
      all-append (within d) (run_task checked_add task d).0 _ (run_task-within checked_add task d)
        (rw (run_task-restores checked_add task d) (run_tasks-within checked_add tasks d))

-- However the operations nest their deadlines, and whatever the clock adds, no check sees a later
-- deadline than the one outside, or none where there is one outside; and afterwards the thread has
-- the deadline that it had before.
pub run_tasks-within_restored :
    (checked_add : ℕ → ℕ → Option ℕ) (tasks : Tasks) (d : Option ℕ)
    → (all (within d) (run_tasks checked_add tasks d).0 ≡ true)
      × ((run_tasks checked_add tasks d).1 ≡ d)
run_tasks-within_restored checked_add tasks d =
    (run_tasks-within checked_add tasks d, run_tasks-restores checked_add tasks d)

-- A query gets no budget exactly when the deadline is exceeded.
pub query_budget-deadline_exceeded :
    (timeout at now : ℕ)
    → (query_budget timeout (some at) now ≡ none) ↔ (deadline_exceeded (some at) now ≡ true)
unfolding query_budget deadline_exceeded deadline_remaining
query_budget-deadline_exceeded timeout at now = ground arith

-- The budget that a query gets is at most the timeout, and ends by the deadline if there is one.
pub query_budget-within :
    (timeout : ℕ) (deadline : Option ℕ) (now budget : ℕ)
    → query_budget timeout deadline now ≡ some budget
    → (budget ≤ timeout) × (within deadline (some (now + budget)) ≡ true)
unfolding query_budget deadline_remaining
query_budget-within timeout none now budget h = ground arith
query_budget-within timeout (some at) now budget h = ground arith
