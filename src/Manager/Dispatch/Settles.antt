-- ===== src/Manager/Dispatch/Settles.antt =====
-- Each delivery that a worker takes (task/pool.go, task/manager.go) is settled exactly once.
use godeepwiki.Common.{
  ℕ, ◌≡◌, refl, ap, ◌⊎◌, inl, inr, Bool, true, false, String, [], ◌∷◌, ◌++◌, Option, arith,
  Bool-cases, Option-cases, Result-cases, str_eq, ltb,
}
use godeepwiki.Model.Task.{Task, TaskType, TaskError, at_state, failed}
use godeepwiki.Model.Errors.{code_internal_error, message_of}
use godeepwiki.Store.Ops.{get, fail_task, claim_pending, reset_to_pending}
use godeepwiki.Queue.Publisher.{publish_retry}
use godeepwiki.Queue.Rabbit.{TaskMessage}
use godeepwiki.Manager.State.{World, Config, acks, nacks, first_state_of, release_refresh_lock}
use godeepwiki.Manager.Dispatch.{
  retry_count, DispatchEnv, Executor, Delivery, RunResult, done, canceled, deadline_exceeded,
  panicked, failed_with, finish_cancelled, with_table, exhausted_error, release_by_id, give_up,
  try_again, reset_and_retry, after_run, run_task, register, dispatch_task, dispatch_claimed,
  dispatch_message, dispatch, is_task_not_found,
}
use godeepwiki.Manager.Pool.{handle_one}

-- One more settlement, of this delivery: an ack, or a rejection without requeue.
abbrev pub SettledOnce : ℕ → World → World → Type 0
SettledOnce tag w w' =
    (w'.settled ≡ w.settled ++ (tag, acks) ∷ [])
    ⊎ (w'.settled ≡ w.settled ++ (tag, nacks false) ∷ [])

release-settled :
    (cfg : Config) (redis_ok : Bool) (now : ℕ) (type : TaskType) (id repo : String) (w : World)
    → (release_refresh_lock cfg redis_ok now type id repo w).settled ≡ w.settled
unfolding release_refresh_lock
release-settled cfg redis_ok now type id repo w = ground arith

release_by_id-settled :
    (cfg : Config) (env : DispatchEnv) (id : String) (w : World)
    → (release_by_id cfg env id w).settled ≡ w.settled
unfolding release_by_id
release_by_id-settled cfg env id w = ground arith

try_again-SettledOnce :
    (env : DispatchEnv) (d : Delivery) (m : TaskMessage) (w : World)
    → SettledOnce d.tag w (try_again env d m w)
unfolding try_again
try_again-SettledOnce env d m w =
    elim (Result-cases (reset_to_pending env.reset_ok env.now m.task_id w.table).0) [
      | inr (x, e) ↦ rw (e, try_again) (inr refl)
      | inl (x, e) ↦
          elim (Result-cases
            (publish_retry env.retry_wire m (retry_count d.retries) w.publisher).0) [
              | inr (y, f) ↦ rw (e, try_again) (rw (f, try_again) (inr refl))
              | inl (y, f) ↦ rw (e, try_again) (rw (f, try_again) (inl refl))
            ]
    ]

give_up-SettledOnce :
    (cfg : Config) (env : DispatchEnv) (d : Delivery) (m : TaskMessage) (w : World)
    → SettledOnce d.tag w (give_up cfg env d m w)
unfolding give_up
give_up-SettledOnce cfg env d m w = inl (
    ap (λ l. l ++ (d.tag, acks) ∷ [])
      (release_by_id-settled cfg env m.task_id (
        with_table w
          (fail_task env.fail_ok env.now m.task_id (exhausted_error (at_state failed)) w.table).1)))

reset_and_retry-SettledOnce :
    (cfg : Config) (env : DispatchEnv) (d : Delivery) (m : TaskMessage) (w : World)
    → SettledOnce d.tag w (reset_and_retry cfg env d m w)
unfolding reset_and_retry
reset_and_retry-SettledOnce cfg env d m w =
    elim (Bool-cases (ltb (retry_count d.retries) cfg.max_retries)) [
      | inl more ↦ rw (more, reset_and_retry) (try_again-SettledOnce env d m w)
      | inr over ↦ rw (over, reset_and_retry) (give_up-SettledOnce cfg env d m w)
    ]

-- What a handler leaves: settled once, or a panic and nothing settled.
abbrev Handled : ℕ → World → World × Bool → Type 0
Handled tag w r =
    ((r.1 ≡ false) × SettledOnce tag w r.0) ⊎ ((r.1 ≡ true) × (r.0.settled ≡ w.settled))

after_run-Handled :
    (cfg : Config) (env : DispatchEnv) (d : Delivery) (m : TaskMessage) (t : Task) (how : RunResult)
    (w : World)
    → Handled d.tag w (after_run cfg env d m t how w)
unfolding after_run
after_run-Handled cfg env d m t done w = inl (
  refl,
  inl (
      ap (λ l. l ++ (d.tag, acks) ∷ [])
        (release-settled cfg env.release_ok env.now t.type t.task_id t.repo_id w)),
)
after_run-Handled cfg env d m t canceled w = inl (
  refl,
  inl (
      ap (λ l. l ++ (d.tag, acks) ∷ [])
        (release-settled cfg env.release_ok env.now t.type t.task_id t.repo_id
          (finish_cancelled env t.task_id w))),
)
after_run-Handled cfg env d m t deadline_exceeded w = inl (
  refl,
  inl (
      ap (λ l. l ++ (d.tag, acks) ∷ [])
        (release-settled cfg env.release_ok env.now t.type t.task_id t.repo_id
          (finish_cancelled env t.task_id w))),
)
after_run-Handled cfg env d m t panicked w = inr (refl, refl)
after_run-Handled cfg env d m t (failed_with e) w =
    inl (refl, reset_and_retry-SettledOnce cfg env d m w)

run_task-Handled :
    (cfg : Config) (env : DispatchEnv) (ex : Executor) (d : Delivery) (m : TaskMessage) (t : Task)
    (w : World)
    → Handled d.tag w (run_task cfg env ex d m t w)
unfolding run_task
run_task-Handled cfg env ex d m t w =
    let started = register t.task_id d.tag w in
    let (how, table) = ex t started.table in
    after_run-Handled cfg env d m t how (with_table started table)

dispatch_task-Handled :
    (cfg : Config) (env : DispatchEnv) (executors : TaskType → Option Executor) (d : Delivery)
    (m : TaskMessage) (t : Task) (w : World)
    → Handled d.tag w (dispatch_task cfg env executors d m t w)
unfolding dispatch_task
dispatch_task-Handled cfg env executors d m t w = elim (Bool-cases t.cancel_flag) [
  | inl flagged ↦ rw (flagged, dispatch_task) (inl (refl, inl refl))
  | inr free ↦ elim (Option-cases (executors t.type)) [
    | inr (ex, found) ↦
        rw (free, dispatch_task) (rw (found, dispatch_task) (run_task-Handled cfg env ex d m t w))
    | inl missing ↦
        let e : TaskError = record {
          code = code_internal_error;
          message = message_of code_internal_error;
          stage = at_state t.state;
        } in
        rw (free, dispatch_task)
          (rw (missing, dispatch_task)
            (inl (
              refl,
              inl (
                  ap (λ l. l ++ (d.tag, acks) ∷ [])
                    (release-settled cfg env.release_ok env.now t.type t.task_id t.repo_id
                      (with_table w (fail_task env.fail_ok env.now t.task_id e w.table).1))),
            )))
  ]
]

dispatch_claimed-Handled :
    (cfg : Config) (env : DispatchEnv) (executors : TaskType → Option Executor) (d : Delivery)
    (m : TaskMessage) (w : World)
    → Handled d.tag w (dispatch_claimed cfg env executors d m w)
unfolding dispatch_claimed
dispatch_claimed-Handled cfg env executors d m w =
    elim (Result-cases (get env.get_ok m.task_id w.table)) [
      | inl (t, e) ↦ rw (e, dispatch_claimed) (dispatch_task-Handled cfg env executors d m t w)
      | inr (x, e) ↦
          rw (e, dispatch_claimed)
            (elim (Bool-cases (is_task_not_found x)) [
              | inl gone ↦ rw (gone, dispatch_claimed) (inl (refl, inl refl))
              | inr kept ↦
                  rw (kept, dispatch_claimed)
                    (inl (refl, reset_and_retry-SettledOnce cfg env d m w))
            ])
    ]

dispatch_message-Handled :
    (cfg : Config) (env : DispatchEnv) (executors : TaskType → Option Executor) (d : Delivery)
    (m : TaskMessage) (w : World)
    → Handled d.tag w (dispatch_message cfg env executors d m w)
unfolding dispatch_message
dispatch_message-Handled cfg env executors d m w = elim (Option-cases (first_state_of m.type)) [
  | inl e ↦ rw (e, dispatch_message) (inl (refl, inr refl))
  | inr (first, e) ↦
      rw (e, dispatch_message)
        (elim (Result-cases (claim_pending env.claim_ok env.now m.task_id first w.table).0) [
          | inr (x, f) ↦ rw (f, dispatch_message) (inl (refl, inr refl))
          | inl (false, f) ↦ rw (f, dispatch_message) (inl (refl, inl refl))
          | inl (true, f) ↦
              rw (f, dispatch_message)
                (dispatch_claimed-Handled cfg env executors d m
                  (with_table w (claim_pending env.claim_ok env.now m.task_id first w.table).1))
        ])
]

dispatch-Handled :
    (cfg : Config) (env : DispatchEnv) (executors : TaskType → Option Executor) (d : Delivery)
    (w : World)
    → Handled d.tag w (dispatch cfg env executors d w)
unfolding dispatch
dispatch-Handled cfg env executors d w = elim (Option-cases d.body) [
  | inl e ↦ rw (e, dispatch) (inl (refl, inr refl))
  | inr (m, e) ↦
      rw (e, dispatch)
        (elim (Bool-cases (str_eq m.task_id "")) [
          | inl f ↦ rw (f, dispatch) (inl (refl, inr refl))
          | inr f ↦ rw (f, dispatch) (dispatch_message-Handled cfg env executors d m w)
        ])
]

-- Whatever the store, Redis, RabbitMQ and the executor do, a panic included, a worker settles each
-- delivery exactly once: it adds one settlement to those before, an ack or a nack without requeue.
pub handle_one-SettledOnce :
    (cfg : Config) (env : DispatchEnv) (executors : TaskType → Option Executor) (d : Delivery)
    (w : World)
    → SettledOnce d.tag w (handle_one cfg env executors d w)
unfolding handle_one
handle_one-SettledOnce cfg env executors d w = elim (dispatch-Handled cfg env executors d w) [
  | inl (quiet, once) ↦ rw (quiet, handle_one) once
  | inr (loud, same) ↦ rw (loud, handle_one) (inr (ap (λ l. l ++ (d.tag, nacks false) ∷ []) same))
]
