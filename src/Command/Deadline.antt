-- ===== src/Command/Deadline.antt =====
-- src/command.rs: the active deadline of a thread, in nanoseconds on one clock, and the budget that it
-- leaves to a query. `Instant::checked_add` is a parameter.
use whykey.Prelude.{
  ℕ, ◌+◌, ◌-◌, ◌*◌, Bool, List, [], ◌∷◌, ◌++◌, Option, none, some, leb, ◌==◌, is_some_and,
  if◌then◌else◌,
}

-- `a.min(b)`
abbrev pub earlier : ℕ → ℕ → ℕ
earlier a b = if leb a b then a else b

-- `Duration::from_secs(365 * 24 * 60 * 60)`
abbrev one_year : ℕ
one_year = 365 * 24 * 60 * 60 * 1000000000

-- The deadline that a call asks for.
unfoldable pub requested_deadline : (ℕ → ℕ → Option ℕ) → ℕ → ℕ → ℕ
requested_deadline checked_add now duration = elim (checked_add now duration) [
  | none ↦ now + one_year
  | some at ↦ at
]

-- The deadline inside the call, where the one outside may be nearer.
unfoldable pub effective_deadline : Option ℕ → ℕ → ℕ
effective_deadline none requested = requested
effective_deadline (some outer) requested = earlier outer requested

-- `with_deadline` on the thread's deadline; the guard puts the previous one back.
unfoldable pub with_deadline {ℓ} :
    {A : Type ℓ} → (ℕ → ℕ → Option ℕ) → ℕ → ℕ → (Option ℕ → A × Option ℕ) → Option ℕ → A × Option ℕ
unfolding requested_deadline effective_deadline
with_deadline checked_add now duration operation previous = (
  (operation (some (effective_deadline previous (requested_deadline checked_add now duration)))).0,
  previous,
)

unfoldable pub deadline_exceeded : Option ℕ → ℕ → Bool
deadline_exceeded deadline now = is_some_and (λ (at : ℕ). leb at now) deadline

-- `saturating_duration_since`
unfoldable pub deadline_remaining : Option ℕ → ℕ → Option ℕ
deadline_remaining none now = none
deadline_remaining (some at) now = some (at - now)

-- `query_budget`, with what `configured_timeout` returns.
unfoldable pub query_budget : ℕ → Option ℕ → ℕ → Option ℕ
unfolding deadline_remaining
query_budget timeout deadline now = elim (deadline_remaining deadline now) [
  | none ↦ some timeout
  | some remaining ↦ if remaining == 0 then none else some (earlier timeout remaining)
]

-- What an operation does with the deadline: it checks it, or runs operations under its own.
mutual
  pub data Task : Type 0 where
    check : Task
    nested : ℕ → ℕ → Tasks → Task

  pub data Tasks : Type 0 where
    done : Tasks
    next : Task → Tasks → Tasks

unfoldable mutual
  -- The deadlines that the checks see, and the thread's deadline afterwards.
  pub run_task : (ℕ → ℕ → Option ℕ) → Task → Option ℕ → List (Option ℕ) × Option ℕ
  run_task checked_add check deadline = (deadline ∷ [], deadline)
  run_task checked_add (nested now duration tasks) deadline =
      with_deadline checked_add now duration (run_tasks checked_add tasks) deadline

  pub run_tasks : (ℕ → ℕ → Option ℕ) → Tasks → Option ℕ → List (Option ℕ) × Option ℕ
  run_tasks checked_add done deadline = ([], deadline)
  run_tasks checked_add (next task tasks) deadline =
      let (seen, after) = run_task checked_add task deadline in
      let (later, last) = run_tasks checked_add tasks after in (seen ++ later, last)
