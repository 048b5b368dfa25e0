-- ===== src/Manager/State.antt =====
-- The state that the handlers of task/manager.go work on: the `tasks` table, the refresh locks of
-- Redis, the publisher, the memory maps of the manager, and what was settled and published.
use godeepwiki.Common.{
  ℕ, Bool, ◌&&◌, String, List, [], ◌∷◌, ◌++◌, Option, none, some, if◌then◌else◌,
}
use godeepwiki.Common.Dict.{lookup, delete}
use godeepwiki.Model.Task.{
  TaskType, TaskState, Stats, Progress, ingest, refresh, wiki, other, cloning, fetching, outlining,
  same_type,
}
use godeepwiki.Store.Table.{Table}
use godeepwiki.Lock.{Locks, release_refresh}
use godeepwiki.Queue.Publisher.{Publisher}

pub data Settlement : Type 0 where
  acks : Settlement
  nacks : Bool → Settlement

-- The payload of a task.state_changed event.
pub record StateEvent : Type 0 where
  pub task_id : String
  pub repo_id : String
  pub state : TaskState
  pub progress : Progress
  pub stats : Stats
  pub queue_position : ℕ

-- `refresh_locks`: the token of each refresh task; `cancels`: the running tasks, with whether their
-- context was cancelled; `inflight`: the delivery tags at work.
pub record World : Type 0 where
  pub table : Table
  pub locks : Locks
  pub publisher : Publisher
  pub refresh_locks : List (String × String)
  pub cancels : List (String × Bool)
  pub inflight : List ℕ
  pub settled : List (ℕ × Settlement)
  pub events : List StateEvent

pub record Config : Type 0 where
  pub queue_size : ℕ
  pub max_retries : ℕ
  pub has_locker : Bool

unfoldable pub first_state_of : TaskType → Option TaskState
first_state_of ingest = some cloning
first_state_of refresh = some fetching
first_state_of wiki = some outlining
first_state_of (other name) = none

-- What ack or nack leaves: one more settlement.
unfoldable pub settle_with : ℕ → Settlement → World → World
settle_with tag s w = record w { settled = w.settled ++ (tag, s) ∷ [] }

-- releaseRefreshLock: the token leaves the memory map, and Redis is asked to unlock; a failure
-- there is only logged.
unfoldable pub release_refresh_lock : Config → Bool → ℕ → TaskType → String → String → World → World
unfolding lookup delete release_refresh
release_refresh_lock cfg redis_ok now type task_id repo_id w =
    if same_type type refresh && cfg.has_locker
    then elim (lookup task_id w.refresh_locks) [
      | none ↦ w
      | some token ↦ record w {
        refresh_locks = delete task_id w.refresh_locks;
        locks = (release_refresh redis_ok now repo_id token w.locks).1;
      }
    ]
    else w
