-- ===== src/Manager/Submit/Locking.antt =====
-- The refresh lock across a submission: Submit of task/manager.go with lock/redis_lock.go.
use godeepwiki.Common.Dict.{lookup, lookup-insert, lookup-delete}
use godeepwiki.Common.{
  ℕ, ◌+◌, ◌≡◌, ◌≢◌, refl, sym, ap, ◌∙◌, ◌⊎◌, inl, inr, Bool, true, false, leb, ltb, none, some,
  String, str_eq, arith, eq_refl, Bool-cases, Result-cases, ok, err, if◌then◌else◌,
}
use godeepwiki.Model.Task.{Task, TaskError, at_state, pending, refresh, fetching}
use godeepwiki.Model.Errors.{
  Error, queue_full, queue_unavailable, wrapped, code_queue_unavailable, message_of,
}
use godeepwiki.Store.Ops.{create, fail_task}
use godeepwiki.Store.Table.{Table}
use godeepwiki.Lock.{Locks, holder, acquire_refresh, refresh_lock_ttl}
use godeepwiki.Lock.Exclusion.{acquire_refresh_lem, release_refresh_lem}
use godeepwiki.Queue.Rabbit.{TaskMessage}
use godeepwiki.Queue.Publisher.{publish}
use godeepwiki.Manager.State.{World, Config, first_state_of, release_refresh_lock}
use godeepwiki.Manager.Submit.{
  SubmitEnv, take_refresh_lock, submit_full, deliver_stored, submit_open, submit_checked, submit,
  depth_or_zero, full_queue_task, pending_task, is_unset,
}

-- The task holds its repository's lock: the manager knows the token, and so does Redis.
abbrev Holds : SubmitEnv → Task → World → Type 0
Holds env t w =
    (lookup t.task_id w.refresh_locks ≡ some env.token)
    × (holder env.now t.repo_id w.locks ≡ some env.token)

-- Nobody holds the repository's lock, and the manager has no token for the task.
abbrev pub Free : Task → World → Type 0
Free t w =
    (lookup t.task_id w.refresh_locks ≡ none)
    × ((later : ℕ) → holder later t.repo_id w.locks ≡ none)

release_refresh_lock-Free :
    (cfg : Config) (env : SubmitEnv) (t : Task) (w : World)
    → t.type ≡ refresh
    → cfg.has_locker ≡ true
    → env.release_ok ≡ true
    → Holds env t w
    → Free t (release_refresh_lock cfg env.release_ok env.now t.type t.task_id t.repo_id w)
unfolding release_refresh_lock
release_refresh_lock-Free cfg env t w r l k h =
    rw (r, l, h.0, k)
      (
        ground (arith, lookup-delete t.task_id t.task_id w.refresh_locks, eq_refl t.task_id),
        λ later. (release_refresh_lem env.now later env.token t.repo_id w.locks).0 h.1,
      )

acquire_refresh-won :
    (redis_ok : Bool) (now : ℕ) (token token' repo : String) (locks : Locks)
    → (acquire_refresh redis_ok now token repo locks).0 ≡ ok (some token')
    → (token' ≡ token)
      × (redis_ok ≡ true)
      × ((later : ℕ)
          → holder later repo (acquire_refresh redis_ok now token repo locks).1
            ≡ (if ltb later (now + refresh_lock_ttl) then some token else none))
unfolding acquire_refresh
acquire_refresh-won false now token token' repo locks h = absurd (ground arith)
acquire_refresh-won true now token token' repo locks h =
    let same : token' ≡ token = ground arith in
    (
      same,
      refl,
      λ later.
          (acquire_refresh_lem now later token repo repo locks).1 (h ∙ ap (λ x. ok (some x)) same),
    )

-- What Submit's first step leaves of a refresh, when it succeeds.
take_refresh_lock-Holds :
    (cfg : Config) (env : SubmitEnv) (t : Task) (w : World)
    → t.type ≡ refresh
    → (take_refresh_lock cfg env t w).0 ≡ ok tt
    → Holds env t (take_refresh_lock cfg env t w).1
      × (cfg.has_locker ≡ true)
      × ((later : ℕ)
          → holder later t.repo_id (take_refresh_lock cfg env t w).1.locks
            ≡ (if ltb later (env.now + refresh_lock_ttl) then some env.token else none))
unfolding take_refresh_lock
take_refresh_lock-Holds cfg env t w r h = elim (Bool-cases cfg.has_locker) [
  | inr off ↦ absurd (ground (arith, r))
  | inl on ↦
      elim (Result-cases (acquire_refresh env.acquire_ok env.now env.token t.repo_id w.locks).0) [
        | inr (e, q) ↦ absurd (ground (arith, r, q))
        | inl (none, q) ↦ absurd (ground (arith, r, q))
        | inl (some token, q) ↦
            let (same, up, held) =
              acquire_refresh-won env.acquire_ok env.now env.token token t.repo_id w.locks q in
            rw (r, on, take_refresh_lock)
              (rw (q, take_refresh_lock)
                (
                  (
                    ground (
                      arith,
                      lookup-insert t.task_id t.task_id token w.refresh_locks,
                      eq_refl t.task_id,
                    ),
                    held env.now ∙ ground arith,
                  ),
                  refl,
                  held,
                ))
      ]
]

deliver_stored-Free :
    (cfg : Config) (env : SubmitEnv) (t : Task) (e : Error) (w : World)
    → t.type ≡ refresh
    → cfg.has_locker ≡ true
    → env.release_ok ≡ true
    → Holds env t w
    → (deliver_stored cfg env t w).0 ≡ err e
    → Free t (deliver_stored cfg env t w).1
unfolding deliver_stored
deliver_stored-Free cfg env t e w r l k held h =
    let m : TaskMessage = record { task_id = t.task_id; type = t.type } in
    let why : TaskError = record {
      code = code_queue_unavailable;
      message = message_of code_queue_unavailable;
      stage = at_state pending;
    } in
    elim (Result-cases (publish env.wire m w.publisher).0) [
      | inl (x, q) ↦ absurd (ground (arith, q))
      | inr (x, q) ↦
          rw (q, deliver_stored)
            (release_refresh_lock-Free cfg env t
              (record w {
                publisher = (publish env.wire m w.publisher).1;
                table = (fail_task env.fail_ok env.now t.task_id why w.table).1;
              })
              r l k held)
    ]

create_err :
    (db_ok : Bool) (now : ℕ) (t : Task) (table : Table) (e : Error)
    → (create db_ok now t table).0 ≡ err e
    → e ≡ wrapped "insert task"
unfolding create
create_err db_ok now t table e h = ground arith

submit_open-Free :
    (cfg : Config) (env : SubmitEnv) (depth : ℕ) (t : Task) (e : Error) (w : World)
    → t.type ≡ refresh
    → cfg.has_locker ≡ true
    → env.release_ok ≡ true
    → Holds env t w
    → e ≢ wrapped "insert task"
    → (submit_open cfg env depth t w).0 ≡ err e
    → Free t (submit_open cfg env depth t w).1
unfolding submit_open
submit_open-Free cfg env depth t e w r l k held ne h =
    elim (Result-cases (create env.create_ok env.now (pending_task env depth t) w.table).0) [
      | inr (x, q) ↦ absurd (
          ground
            (arith, create_err env.create_ok env.now (pending_task env depth t) w.table x q, ne))
      | inl (x, q) ↦
          rw (q, submit_open)
            (deliver_stored-Free cfg env (pending_task env depth t) e
              (record w {
                table = (create env.create_ok env.now (pending_task env depth t) w.table).1;
              })
              r l k held (ground (arith, q)))
    ]

submit_full-Free :
    (cfg : Config) (env : SubmitEnv) (t : Task) (e : Error) (w : World)
    → t.type ≡ refresh
    → cfg.has_locker ≡ true
    → env.release_ok ≡ true
    → Holds env t w
    → e ≢ wrapped "insert task"
    → (submit_full cfg env t w).0 ≡ err e
    → Free t (submit_full cfg env t w).1
unfolding submit_full
submit_full-Free cfg env t e w r l k held ne h =
    elim (Result-cases (create env.create_ok env.now (full_queue_task env t) w.table).0) [
      | inr (x, q) ↦
          absurd (
            ground
              (arith, create_err env.create_ok env.now (full_queue_task env t) w.table x q, ne))
      | inl (x, q) ↦
          rw (q, submit_full)
            (release_refresh_lock-Free cfg env t
              (record w {
                table = (create env.create_ok env.now (full_queue_task env t) w.table).1;
              })
              r l k held)
    ]

-- A refresh with an identifier passes the checks.
submit-submit_checked :
    (cfg : Config) (env : SubmitEnv) (t : Task) (w : World)
    → t.type ≡ refresh
    → str_eq t.task_id "" ≡ false
    → submit cfg env t w ≡ submit_checked cfg env t w
unfolding submit first_state_of
submit-submit_checked cfg env t w r i =
    let set : is_unset t.type ≡ false = rw r refl in
    let known : first_state_of t.type ≡ some fetching = ap first_state_of r in
    rw (set, known, submit) (rw (i, submit) refl)

take_refresh_lock_err :
    (cfg : Config) (env : SubmitEnv) (t : Task) (e : Error) (w : World)
    → (take_refresh_lock cfg env t w).0 ≡ err e
    → (e ≢ queue_full) × (e ≢ queue_unavailable)
unfolding take_refresh_lock
take_refresh_lock_err cfg env t e w h =
    elim (Result-cases (acquire_refresh env.acquire_ok env.now env.token t.repo_id w.locks).0) [
      | inr (x, q) ↦ (λ f. ground (arith, q, f, h), λ f. ground (arith, q, f, h))
      | inl (none, q) ↦ (λ f. ground (arith, q, f, h), λ f. ground (arith, q, f, h))
      | inl (some token, q) ↦ (λ f. ground (arith, q, f, h), λ f. ground (arith, q, f, h))
    ]

submit_checked-Free :
    (cfg : Config) (env : SubmitEnv) (t : Task) (e : Error) (w : World)
    → t.type ≡ refresh
    → env.release_ok ≡ true
    → (e ≡ queue_full) ⊎ (e ≡ queue_unavailable)
    → (submit_checked cfg env t w).0 ≡ err e
    → Free t (submit_checked cfg env t w).1
unfolding submit_checked
submit_checked-Free cfg env t e w r k full h =
    let ne : e ≢ wrapped "insert task" = λ f. ground (arith, f, full) in
    elim (Result-cases (take_refresh_lock cfg env t w).0) [
      | inr (x, q) ↦
          let (a, b) = take_refresh_lock_err cfg env t x w q in absurd (ground (arith, a, b, q))
      | inl (x, q) ↦
          let (held, l, _) = take_refresh_lock-Holds cfg env t w r q in
          let w₁ = (take_refresh_lock cfg env t w).1 in
          elim (Bool-cases (leb cfg.queue_size (depth_or_zero env.depth))) [
            | inl over ↦
                rw (q, submit_checked)
                  (rw (over, submit_checked)
                    (submit_full-Free cfg env t e w₁ r l k held ne (ground (arith, q, over))))
            | inr room ↦
                rw (q, submit_checked)
                  (rw (room, submit_checked)
                    (submit_open-Free cfg env (depth_or_zero env.depth) t e w₁ r l k held ne
                      (ground (arith, q, room))))
          ]
    ]

-- A refresh that Submit refuses for a full queue or a queue that is down gives its lock back, while
-- Redis answers: nobody holds the repository's lock, and the manager has no token for the task.
pub submit-Free :
    (cfg : Config) (env : SubmitEnv) (t : Task) (w : World)
    → t.type ≡ refresh
    → str_eq t.task_id "" ≡ false
    → env.release_ok ≡ true
    → ((submit cfg env t w).0 ≡ err queue_full) ⊎ ((submit cfg env t w).0 ≡ err queue_unavailable)
    → Free t (submit cfg env t w).1
submit-Free cfg env t w r i k h = rw (submit-submit_checked cfg env t w r i) (elim h [
  | inl full ↦
      submit_checked-Free cfg env t queue_full w r k (inl refl)
        (ap (λ x. x.0) (sym (submit-submit_checked cfg env t w r i)) ∙ full)
  | inr down ↦
      submit_checked-Free cfg env t queue_unavailable w r k (inr refl)
        (ap (λ x. x.0) (sym (submit-submit_checked cfg env t w r i)) ∙ down)
])

-- A refresh that takes its lock, and that the table then refuses, keeps the lock: Submit fails, and
-- the repository stays locked until the lock expires.
pub submit_leaks :
    (cfg : Config) (env : SubmitEnv) (t : Task) (later : ℕ) (w : World)
    → t.type ≡ refresh
    → str_eq t.task_id "" ≡ false
    → (take_refresh_lock cfg env t w).0 ≡ ok tt
    → env.create_ok ≡ false
    → ((submit cfg env t w).0 ≡ err (wrapped "insert task"))
      × (holder later t.repo_id (submit cfg env t w).1.locks
          ≡ (if ltb later (env.now + refresh_lock_ttl) then some env.token else none))
unfolding submit_checked submit_full submit_open create
submit_leaks cfg env t later w r i q down =
    let (held, l, until) = take_refresh_lock-Holds cfg env t w r q in
    rw (submit-submit_checked cfg env t w r i)
      (elim (Bool-cases (leb cfg.queue_size (depth_or_zero env.depth))) [
        | inl over ↦
            rw (q, submit_checked)
              (rw (over, submit_checked) (rw (down, submit_full) (refl, until later)))
        | inr room ↦
            rw (q, submit_checked)
              (rw (room, submit_checked) (rw (down, submit_open) (refl, until later)))
      ])
