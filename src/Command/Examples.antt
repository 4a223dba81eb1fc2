-- ===== src/Command/Examples.antt =====
-- The deadlines of src/command.rs, one inside the other.
use whykey.Prelude.{ℕ, ◌+◌, true, Option, some, all, ◌≡◌, refl}
use whykey.Command.Deadline.{
  query_budget, deadline_remaining, Tasks, check, nested, done, next, run_tasks,
}
use whykey.Command.Nested.{within, run_tasks-within_restored}

abbrev add : ℕ → ℕ → Option ℕ
add now duration = some (now + duration)

-- Ten more from time 5, and inside that ninety more from time 7.
abbrev diagnosis : Tasks
diagnosis =
    next (nested 5 10 (next check (next (nested 7 90 (next check done)) done))) (next check done)

run_tasks-within_restored_example :
    (all (within (some 50)) (run_tasks add diagnosis (some 50)).0 ≡ true)
    × ((run_tasks add diagnosis (some 50)).1 ≡ some 50)
run_tasks-within_restored_example = run_tasks-within_restored add diagnosis (some 50)

one_left : query_budget 2 (some 50) 49 ≡ some 1
unfolding query_budget deadline_remaining
one_left = refl
