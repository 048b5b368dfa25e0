-- ===== src/Manager/Submit.antt =====
-- Submit and Cancel of task/manager.go.
pub mod Locking
pub mod Storing
pub mod Cancelling
use godeepwiki.Common.{
  ℕ, zero, suc, ◌+◌, Bool, true, false, not, ◌&&◌, String, List, [], ◌∷◌, ◌++◌, Option, none, some,
  if◌then◌else◌, Result, ok, err, str_eq, ◌==◌, leb,
}
use godeepwiki.Common.Dict.{lookup, insert, delete}
use godeepwiki.Model.Task.{
  Task, TaskType, TaskState, TaskError, TaskPatch, empty_patch, at_state, refresh, other, pending,
  failed, cancelled, same_type, is_terminal,
}
use godeepwiki.Model.Errors.{
  Error, api_error, repo_already_exists, queue_full, queue_unavailable, invalid_task_state,
  message_of, code_invalid_param, code_internal_error, code_queue_full, code_queue_unavailable,
}
use godeepwiki.Store.Table.{Table}
use godeepwiki.Store.Ops.{create, get, fail_task, set_cancel_flag, update_state}
use godeepwiki.Lock.{acquire_refresh}
use godeepwiki.Queue.Rabbit.{TaskMessage}
use godeepwiki.Queue.Publisher.{Wire, DepthReply, queue_depth, publish}
use godeepwiki.Manager.State.{World, Config, StateEvent, first_state_of, release_refresh_lock}

-- What the outer systems do during one Submit.
pub record SubmitEnv : Type 0 where
  pub now : ℕ
  pub new_task_id : String
  pub token : String
  pub acquire_ok : Bool
  pub release_ok : Bool
  pub depth : DepthReply
  pub create_ok : Bool
  pub wire : Wire
  pub fail_ok : Bool
  pub bus_ok : Bool

-- The refresh lock of the task's repository, if it is a refresh.
unfoldable pub take_refresh_lock :
    Config → SubmitEnv → Task → World → Result Error (Unit {0}) × World
unfolding acquire_refresh insert
take_refresh_lock cfg env t w =
    if same_type t.type refresh
    then if cfg.has_locker
      then elim (acquire_refresh env.acquire_ok env.now env.token t.repo_id w.locks).0 [
        | err e ↦ (err (api_error code_internal_error "refresh lock acquire failed"), w)
        | ok none ↦ (err repo_already_exists, w)
        | ok (some token) ↦ (
          ok tt,
          record w {
            locks = (acquire_refresh env.acquire_ok env.now env.token t.repo_id w.locks).1;
            refresh_locks = insert t.task_id token w.refresh_locks;
          },
        )
      ]
      else (err (api_error code_internal_error "refresh locker not configured"), w)
    else (ok tt, w)

abbrev pub depth_or_zero : DepthReply → ℕ
depth_or_zero reply = elim (queue_depth reply) [ ok depth ↦ depth | err e ↦ 0 ]

abbrev pub full_queue_task : SubmitEnv → Task → Task
full_queue_task env t = record t {
  state = failed;
  queue_position = 0;
  finished_at = some env.now;
  error = some (record {
    code = code_queue_full;
    message = message_of code_queue_full;
    stage = at_state pending;
  });
}

abbrev pub pending_task : SubmitEnv → ℕ → Task → Task
pending_task env depth t = record t {
  state = pending;
  queue_position = depth + 1;
  created_at = if t.created_at == 0 then env.now else t.created_at;
}

unfoldable pub publish_state_changed : Bool → Task → World → World
publish_state_changed bus_ok t w =
    if bus_ok
    then record w {
      events =
          w.events
          ++ (record {
            task_id = t.task_id;
            repo_id = t.repo_id;
            state = t.state;
            progress = t.progress;
            stats = t.stats;
            queue_position = t.queue_position;
          })
            ∷ [];
    }
    else w

abbrev with_table : World → Table → World
with_table w table = record w { table = table }

abbrev release_for : Config → SubmitEnv → Task → World → World
release_for cfg env t w =
    release_refresh_lock cfg env.release_ok env.now t.type t.task_id t.repo_id w

-- A full queue: the task is stored as failed, and the lock goes back.
unfoldable pub submit_full : Config → SubmitEnv → Task → World → Result Error (Unit {0}) × World
unfolding create release_refresh_lock
submit_full cfg env t w = elim (create env.create_ok env.now (full_queue_task env t) w.table).0 [
  | err e ↦ (err e, w)
  | ok _ ↦ (
    err queue_full,
    release_for cfg env t
        (with_table w (create env.create_ok env.now (full_queue_task env t) w.table).1),
  )
]

-- The message of a stored task goes out; if it does not, the task fails and the lock goes back.
unfoldable pub deliver_stored : Config → SubmitEnv → Task → World → Result Error (Unit {0}) × World
unfolding publish fail_task release_refresh_lock publish_state_changed
deliver_stored cfg env t w =
    let m : TaskMessage = record { task_id = t.task_id; type = t.type } in
    elim (publish env.wire m w.publisher).0 [
      | err e ↦ (
        err queue_unavailable,
        release_for cfg env t (record w {
          publisher = (publish env.wire m w.publisher).1;
          table =
              (fail_task env.fail_ok env.now t.task_id
                (record {
                  code = code_queue_unavailable;
                  message = message_of code_queue_unavailable;
                  stage = at_state pending;
                })
                w.table).1;
        }),
      )
      | ok _ ↦ (
        ok tt,
        publish_state_changed env.bus_ok t
            (record w { publisher = (publish env.wire m w.publisher).1 }),
      )
    ]

unfoldable pub submit_open : Config → SubmitEnv → ℕ → Task → World → Result Error (Unit {0}) × World
unfolding create deliver_stored
submit_open cfg env depth t w =
    elim (create env.create_ok env.now (pending_task env depth t) w.table).0 [
      | err e ↦ (err e, w)
      | ok _ ↦
          deliver_stored cfg env (pending_task env depth t)
            (with_table w (create env.create_ok env.now (pending_task env depth t) w.table).1)
    ]

abbrev with_id : SubmitEnv → Task → Task
with_id env t = record t { task_id = if str_eq t.task_id "" then env.new_task_id else t.task_id }

abbrev pub is_unset : TaskType → Bool
is_unset t = same_type t (other "")

-- From the point where the task has an identifier and a known type.
unfoldable pub submit_checked : Config → SubmitEnv → Task → World → Result Error (Unit {0}) × World
unfolding take_refresh_lock submit_full submit_open queue_depth
submit_checked cfg env t w = elim (take_refresh_lock cfg env t w).0 [
  | err e ↦ (err e, (take_refresh_lock cfg env t w).1)
  | ok _ ↦
      if leb cfg.queue_size (depth_or_zero env.depth)
      then submit_full cfg env t (take_refresh_lock cfg env t w).1
      else submit_open cfg env (depth_or_zero env.depth) t (take_refresh_lock cfg env t w).1
]

unfoldable pub submit : Config → SubmitEnv → Task → World → Result Error (Unit {0}) × World
unfolding submit_checked first_state_of
submit cfg env t w =
    if is_unset t.type
    then (err (api_error code_invalid_param "task type is required"), w)
    else elim (first_state_of t.type) [
      | none ↦ (err (api_error code_invalid_param "invalid task type"), w)
      | some s ↦ submit_checked cfg env (with_id env t) w
    ]

pub record CancelEnv : Type 0 where
  pub now : ℕ
  pub get_ok : Bool
  pub flag_ok : Bool
  pub reads_ok : Bool
  pub writes_ok : Bool

abbrev pub cancel_patch : ℕ → TaskPatch
cancel_patch now = record empty_patch { state = some cancelled; finished_at = some now }

-- The context of a running task is cancelled.
unfoldable pub signal_cancel : String → World → World
unfolding lookup insert
signal_cancel id w = elim (lookup id w.cancels) [
  | none ↦ w
  | some _ ↦ record w { cancels = insert id true w.cancels }
]

-- The two writes of Cancel, once the task is known to be live.
unfoldable pub cancel_live : CancelEnv → String → World → Result Error (Unit {0}) × World
unfolding set_cancel_flag update_state signal_cancel
cancel_live env id w =
    let flagged = set_cancel_flag env.flag_ok env.now id w.table in
    let moved =
      update_state env.reads_ok env.writes_ok env.now id (cancel_patch env.now) flagged.1 in
    elim flagged.0 [
      | err e ↦ (err e, with_table w flagged.1)
      | ok _ ↦ elim moved.0 [
        | err e ↦ (err e, with_table w moved.1)
        | ok _ ↦ (ok tt, signal_cancel id (with_table w moved.1))
      ]
    ]

unfoldable pub cancel : CancelEnv → String → World → Result Error (Unit {0}) × World
unfolding get cancel_live is_terminal
cancel env id w = elim (get env.get_ok id w.table) [
  | err e ↦ (err e, w)
  | ok t ↦ if is_terminal t.state then (err invalid_task_state, w) else cancel_live env id w
]
