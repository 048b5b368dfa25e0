-- ===== src/Tests/Store.antt =====
-- The theorems on the task table, its states and the refresh lock at concrete inputs.

use godeepwiki.Common.{
  ◌+◌, ◌≡◌, ◌≢◌, refl, true, List, [], ◌∷◌, none, some, String, arith, ok, if◌then◌else◌, ◌<◌, ◌≤◌,
  Bool, eq_iff, err,
}
use godeepwiki.Model.Task.{
  TaskFilter, empty_patch, ingest, cloning, parsing, completed, cancelled, is_terminal,
  can_transition,
}
use godeepwiki.Store.Table.{find_row, state_of}
use godeepwiki.Store.Moves.{
  StoreOp, creates, updates, resets, fails, claims, apply_op, run_ops, MovesTo, apply_op-MovesTo,
  terminal_absorbs,
}
use godeepwiki.Store.Claim.{winners, winners_one}
use godeepwiki.Store.Invariant.{IsWellFormed, run_ops-IsWellFormed}
use godeepwiki.Lock.{Locks, acquire_refresh, release_refresh, refresh_lock_ttl}
use godeepwiki.Lock.Holding.{LockCall, acquires, releases, after_calls, acquire_refresh-IsExclusive}
use godeepwiki.Model.Errors.{wrapped}
use godeepwiki.Tests.Data.{three_rows, row_of, waiting_task, parsing_task, timeout_error}

abbrev late_ops : List StoreOp
late_ops =
    fails true 100 "task_c" timeout_error
    ∷ resets true 110 "task_c"
    ∷ updates true true 120 "task_c" (record empty_patch { state = some cancelled })
    ∷ []

terminal_absorbs_example : state_of "task_c" (run_ops late_ops three_rows) ≡ some completed
unfolding find_row is_terminal
terminal_absorbs_example = terminal_absorbs late_ops "task_c" three_rows completed refl refl

abbrev first_ops : List StoreOp
first_ops =
    creates true 10 waiting_task
    ∷ claims true 20 "task_a" cloning
    ∷ fails true 30 "task_a" timeout_error
    ∷ []

run_ops-IsWellFormed_example : IsWellFormed (run_ops first_ops [])
unfolding is_terminal
run_ops-IsWellFormed_example =
    run_ops-IsWellFormed first_ops []
      ((λ h. absurd (ground arith), λ h. absurd (ground arith)), (refl, (tt, tt)))
      (record { keyed = tt; rows = tt })

apply_op-MovesTo_example :
    MovesTo parsing (state_of "task_b" (apply_op (resets true 50 "task_b") three_rows))
unfolding find_row
apply_op-MovesTo_example =
    apply_op-MovesTo (resets true 50 "task_b") "task_b" three_rows (row_of parsing_task) refl

winners_one_example : winners "task_a" ((20, cloning) ∷ (21, cloning) ∷ []) three_rows ≡ 1
unfolding find_row can_transition
winners_one_example =
    winners_one "task_a" (20, cloning) ((21, cloning) ∷ []) three_rows (refl, (refl, (refl, tt)))
      (refl, (refl, tt))

abbrev ingest_only : TaskFilter
ingest_only = record { type = some ingest; state = none; repo_id = ""; page = 1; page_size = 1 }

abbrev repo_1 : String
repo_1 = "repo_1"

abbrev repo_2 : String
repo_2 = "repo_2"

abbrev held_lock : Locks
held_lock = (repo_1, record { token = "stale"; expires = 90 }) ∷ []

-- A node refreshes `repo_1`; others try for it and for `repo_2`, and one gives back what it has not.
abbrev other_calls : List LockCall
other_calls =
    acquires true 150 "repo_1" "guess"
    ∷ acquires true 160 "repo_2" "other"
    ∷ releases true 170 "repo_1" "guess"
    ∷ []

not_guess : ◌≢◌ {A = String} "guess" "secret"
not_guess e = absurd (ground (arith, eq_iff "guess" "secret", e))

acquire_refresh-IsExclusive_example :
    let held = after_calls other_calls (acquire_refresh true 100 "secret" "repo_1" held_lock).1 in
    (399 < 100 + refresh_lock_ttl
      → (up : Bool)
      → ((acquire_refresh up 399 "late" "repo_1" held).0
          ≡ (if up then ok none else err (wrapped "lock acquire")))
        × ((acquire_refresh up 399 "late" "repo_1" held).1 ≡ held))
    × (399 < 100 + refresh_lock_ttl
        → (acquire_refresh true 399 "late" "repo_1"
            (release_refresh true 399 "repo_1" "secret" held).1).0
          ≡ ok (some "late"))
    × (100 + refresh_lock_ttl ≤ 399
        → (acquire_refresh true 399 "late" "repo_1" held).0 ≡ ok (some "late"))
unfolding acquire_refresh
acquire_refresh-IsExclusive_example =
    acquire_refresh-IsExclusive true 100 399 "secret" "late" "repo_1" held_lock other_calls refl
      (omega arith, (omega arith, ((omega arith, λ same. not_guess), tt)))
