-- ===== src/Manager/Dispatch.antt =====
-- dispatch of task/manager.go, and handleDLQ of task/dlq.go. An executor is not part of the manager:
-- it is a parameter that takes the task and the table and returns how it ended and the table that it,
-- and whatever ran beside it, left.
pub mod Settles
pub mod Retries
pub mod Duplicates
use godeepwiki.Common.{
  ℕ, zero, suc, ◌+◌, Bool, true, false, not, ◌&&◌, ◌||◌, String, List, [], ◌∷◌, ◌++◌, Option, none,
  some, if◌then◌else◌, Result, ok, err, str_eq, ◌==◌, ltb, select,
}
use godeepwiki.Common.Dict.{lookup, insert, delete}
use godeepwiki.Model.Task.{
  Task, TaskType, TaskState, TaskError, TaskPatch, Stage, empty_patch, at_state, death, refresh,
  other, pending, failed, cancelled, same_state, is_terminal,
}
use godeepwiki.Model.Errors.{Error, task_not_found, message_of, code_internal_error}
use godeepwiki.Store.Table.{Table}
use godeepwiki.Store.Ops.{get, fail_task, update_state, claim_pending, reset_to_pending}
use godeepwiki.Queue.Rabbit.{TaskMessage}
use godeepwiki.Queue.Publisher.{Wire, publish_retry, publish_to_dlq}
use godeepwiki.Manager.State.{
  World, Config, Settlement, acks, nacks, settle_with, first_state_of, release_refresh_lock,
}

-- The x-retry-count header: missing, one of the integer types, or of another type.
pub data RetryHeader : Type 0 where
  absent : RetryHeader
  number : ℕ → RetryHeader
  other_type : RetryHeader

unfoldable pub retry_count : RetryHeader → ℕ
retry_count absent = 0
retry_count (number n) = n
retry_count other_type = 0

-- `body`: the message that the JSON holds, if it is one.
pub record Delivery : Type 0 where
  pub tag : ℕ
  pub body : Option TaskMessage
  pub retries : RetryHeader

pub data RunResult : Type 0 where
  done canceled deadline_exceeded panicked : RunResult
  failed_with : Error → RunResult

abbrev pub Executor : Type 0
Executor = Task → Table → RunResult × Table

-- What the outer systems do during one delivery.
pub record DispatchEnv : Type 0 where
  pub now : ℕ
  pub claim_ok : Bool
  pub get_ok : Bool
  pub reads_ok : Bool
  pub writes_ok : Bool
  pub reset_ok : Bool
  pub fail_ok : Bool
  pub release_ok : Bool
  pub retry_wire : Wire
  pub dlq_wire : Wire

abbrev pub with_table : World → Table → World
with_table w table = record w { table = table }

abbrev pub code_retry_exhausted : ℕ
code_retry_exhausted = 50003

abbrev pub exhausted_error : Stage → TaskError
exhausted_error stage = record {
  code = code_retry_exhausted;
  message = "task retry exhausted";
  stage = stage;
}

-- finishTerminal for `cancelled`, its error ignored as the callers do.
unfoldable pub finish_cancelled : DispatchEnv → String → World → World
unfolding update_state
finish_cancelled env id w =
    with_table w
      (update_state env.reads_ok env.writes_ok env.now id
        (record empty_patch {
          state = some cancelled;
          finished_at = some env.now;
          clear_err = true;
        })
        w.table).1

-- The repository is looked up; a task that is not found has the empty text.
unfoldable pub release_by_id : Config → DispatchEnv → String → World → World
unfolding release_refresh_lock get
release_by_id cfg env id w =
    let repo : String = elim (get env.get_ok id w.table) [ ok t ↦ t.repo_id | err e ↦ "" ] in
    release_refresh_lock cfg env.release_ok env.now refresh id repo w

-- Retries are used up: failed, the lock goes back, a copy to the dead-letter queue, ack.
unfoldable pub give_up : Config → DispatchEnv → Delivery → TaskMessage → World → World
unfolding release_by_id fail_task publish_to_dlq settle_with
give_up cfg env d msg w =
    let w₁ =
      with_table w
        (fail_task env.fail_ok env.now msg.task_id (exhausted_error (at_state failed)) w.table).1 in
    let w₂ = release_by_id cfg env msg.task_id w₁ in
    settle_with d.tag acks
      (record w₂ { publisher = (publish_to_dlq env.dlq_wire msg w₂.publisher).1 })

-- Back to `pending`, and a message to the retry queue of this attempt.
unfoldable pub try_again : DispatchEnv → Delivery → TaskMessage → World → World
unfolding reset_to_pending publish_retry settle_with retry_count
try_again env d msg w =
    let reset = reset_to_pending env.reset_ok env.now msg.task_id w.table in
    let sent = publish_retry env.retry_wire msg (retry_count d.retries) w.publisher in
    let w₁ = with_table w reset.1 in
    elim reset.0 [
      | err e ↦ settle_with d.tag (nacks false) w₁
      | ok _ ↦ elim sent.0 [
        | err e ↦ settle_with d.tag (nacks false) (record w₁ { publisher = sent.1 })
        | ok _ ↦ settle_with d.tag acks (record w₁ { publisher = sent.1 })
      ]
    ]

unfoldable pub reset_and_retry : Config → DispatchEnv → Delivery → TaskMessage → World → World
unfolding try_again give_up retry_count
reset_and_retry cfg env d msg w =
    if ltb (retry_count d.retries) cfg.max_retries
    then try_again env d msg w
    else give_up cfg env d msg w

abbrev release_task : Config → DispatchEnv → Task → World → World
release_task cfg env t w =
    release_refresh_lock cfg env.release_ok env.now t.type t.task_id t.repo_id w

-- After the executor: by how it ended. A panic settles nothing here, and is passed on.
unfoldable pub after_run :
    Config → DispatchEnv → Delivery → TaskMessage → Task → RunResult → World → World × Bool
unfolding reset_and_retry finish_cancelled release_refresh_lock settle_with
after_run cfg env d msg t done w = (settle_with d.tag acks (release_task cfg env t w), false)
after_run cfg env d msg t canceled w =
    (settle_with d.tag acks (release_task cfg env t (finish_cancelled env t.task_id w)), false)
after_run cfg env d msg t deadline_exceeded w =
    (settle_with d.tag acks (release_task cfg env t (finish_cancelled env t.task_id w)), false)
after_run cfg env d msg t panicked w = (w, true)
after_run cfg env d msg t (failed_with e) w = (reset_and_retry cfg env d msg w, false)

-- The task's cancel function and the delivery are known to the manager while the executor runs.
unfoldable pub register : String → ℕ → World → World
unfolding insert
register id tag w = record w { cancels = insert id false w.cancels; inflight = tag ∷ w.inflight }

unfoldable pub unregister : String → ℕ → World → World
unfolding delete
unregister id tag w = record w {
  cancels = delete id w.cancels;
  inflight = select (λ x. not (x == tag)) w.inflight;
}

-- The deferred clean-up runs after the settlement, and also on a panic.
unfoldable pub run_task :
    Config → DispatchEnv → Executor → Delivery → TaskMessage → Task → World → World × Bool
unfolding after_run register unregister
run_task cfg env ex d msg t w =
    let started = register t.task_id d.tag w in
    let (how, table) = ex t started.table in
    let (w', p) = after_run cfg env d msg t how (with_table started table) in
    (unregister t.task_id d.tag w', p)

-- The task is claimed and read.
unfoldable pub dispatch_task :
    Config
    → DispatchEnv
    → (TaskType → Option Executor)
    → Delivery
    → TaskMessage
    → Task
    → World
    → World × Bool
unfolding run_task finish_cancelled fail_task release_refresh_lock settle_with
dispatch_task cfg env executors d msg t w =
    if t.cancel_flag
    then (settle_with d.tag acks (finish_cancelled env t.task_id w), false)
    else elim (executors t.type) [
      | some ex ↦ run_task cfg env ex d msg t w
      | none ↦ (
        settle_with d.tag acks (
            release_task cfg env t (
              with_table w
                (fail_task env.fail_ok env.now t.task_id
                  (record {
                    code = code_internal_error;
                    message = message_of code_internal_error;
                    stage = at_state t.state;
                  })
                  w.table).1)),
        false,
      )
    ]

-- errors.Is(err, model.ErrTaskNotFound)
unfoldable pub is_task_not_found : Error → Bool
is_task_not_found task_not_found = true
is_task_not_found e = false

unfoldable pub dispatch_claimed :
    Config
    → DispatchEnv
    → (TaskType → Option Executor)
    → Delivery
    → TaskMessage
    → World
    → World × Bool
unfolding dispatch_task reset_and_retry get settle_with is_task_not_found
dispatch_claimed cfg env executors d msg w = elim (get env.get_ok msg.task_id w.table) [
  | ok t ↦ dispatch_task cfg env executors d msg t w
  | err e ↦
      if is_task_not_found e
      then (settle_with d.tag acks w, false)
      else (reset_and_retry cfg env d msg w, false)
]

unfoldable pub dispatch_message :
    Config
    → DispatchEnv
    → (TaskType → Option Executor)
    → Delivery
    → TaskMessage
    → World
    → World × Bool
unfolding dispatch_claimed claim_pending first_state_of settle_with
dispatch_message cfg env executors d msg w = elim (first_state_of msg.type) [
  | none ↦ (settle_with d.tag (nacks false) w, false)
  | some first ↦
      let claim = claim_pending env.claim_ok env.now msg.task_id first w.table in
      elim claim.0 [
        | err e ↦ (settle_with d.tag (nacks false) (with_table w claim.1), false)
        | ok false ↦ (settle_with d.tag acks (with_table w claim.1), false)
        | ok true ↦ dispatch_claimed cfg env executors d msg (with_table w claim.1)
      ]
]

-- The second part of the result says that the handler panicked.
unfoldable pub dispatch :
    Config → DispatchEnv → (TaskType → Option Executor) → Delivery → World → World × Bool
unfolding dispatch_message settle_with
dispatch cfg env executors d w = elim d.body [
  | none ↦ (settle_with d.tag (nacks false) w, false)
  | some msg ↦
      if str_eq msg.task_id ""
      then (settle_with d.tag (nacks false) w, false)
      else dispatch_message cfg env executors d msg w
]

-- A dead letter: failed with the reason of its death, unless it is finished already; ack.
unfoldable pub handle_dlq : DispatchEnv → String → Delivery → World → World
unfolding fail_task settle_with
handle_dlq env reason d w = elim d.body [
  | none ↦ settle_with d.tag acks w
  | some msg ↦ settle_with d.tag acks (
      with_table w
        (fail_task env.fail_ok env.now msg.task_id (exhausted_error (death reason)) w.table).1)
]
