-- ===== src/Queue/Reconciler.antt =====
-- deepwiki/internal/queue/reconciler.go: recovery at the start and periodic recovery.
-- `publish_fails i` says that the i-th Publish of a pass fails; a message that fails is skipped.
use godeepwiki.Common.{ℕ, suc, ◌-◌, Bool, List, [], ◌∷◌, if◌then◌else◌, Result, ok, err}
use godeepwiki.Model.Task.{Task}
use godeepwiki.Model.Errors.{Error, wrapped}
use godeepwiki.Store.Table.{Table}
use godeepwiki.Store.Ops.{reset_stale_running, find_interrupted, find_stale}
use godeepwiki.Queue.Rabbit.{TaskMessage}

-- Which calls of a pass the database carries out.
pub record PassFaults : Type 0 where
  pub reset_ok : Bool
  pub find_ok : Bool
  pub publish_fails : ℕ → Bool

abbrev pub message_of_task : Task → TaskMessage
message_of_task t = record { task_id = t.task_id; type = t.type }

unfoldable pub republish : (ℕ → Bool) → ℕ → List Task → List TaskMessage
republish fails i [] = []
republish fails i (t ∷ ts) =
    let rest = republish fails (suc i) ts in if fails i then rest else message_of_task t ∷ rest

-- A pass: reset what is stale, find the tasks, publish a message for each.
abbrev recover_with :
    PassFaults
    → ℕ
    → ℕ
    → (Table → Result Error (List Task))
    → Table
    → Result Error (List TaskMessage) × Table
recover_with faults now before find table =
    elim (reset_stale_running faults.reset_ok now before table).0 [
      | err e ↦ (err (wrapped "reconciler reset stale running"), table)
      | ok reset ↦ elim (find (reset_stale_running faults.reset_ok now before table).1) [
        | err e ↦ (
          err (wrapped "reconciler find"),
          (reset_stale_running faults.reset_ok now before table).1,
        )
        | ok tasks ↦ (
          ok (republish faults.publish_fails 0 tasks),
          (reset_stale_running faults.reset_ok now before table).1,
        )
      ]
    ]

-- The pass at the start: every task that is not terminal is published again.
unfoldable pub recover : PassFaults → ℕ → ℕ → Table → Result Error (List TaskMessage) × Table
unfolding republish reset_stale_running find_interrupted
recover faults now stale_after table =
    recover_with faults now (now - stale_after) (find_interrupted faults.find_ok) table

-- The periodic pass: only tasks that were not touched for `stale_after`.
unfoldable pub recover_stale : PassFaults → ℕ → ℕ → Table → Result Error (List TaskMessage) × Table
unfolding republish reset_stale_running find_stale
recover_stale faults now stale_after table =
    recover_with faults now (now - stale_after) (find_stale faults.find_ok (now - stale_after))
      table
