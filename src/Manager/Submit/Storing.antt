-- ===== src/Manager/Submit/Storing.antt =====
-- What a Submit (deepwiki/internal/task/manager.go) that succeeds leaves in the table.
use godeepwiki.Common.{
  ℕ, ◌≡◌, ◌≢◌, refl, ap, ◌∙◌, Bool, true, false, some, Result-cases, Option-cases, Bool-cases, inl,
  inr, ok, str_eq, eq_refl, leb, arith,
}
use godeepwiki.Model.Task.{Task, pending}
use godeepwiki.Store.Table.{Row, Table, find_row, state_of, find_row-insert}
use godeepwiki.Store.Ops.{create, create_task}
use godeepwiki.Queue.Publisher.{publish}
use godeepwiki.Queue.Rabbit.{TaskMessage}
use godeepwiki.Manager.State.{World, Config, first_state_of}
use godeepwiki.Manager.Submit.{
  SubmitEnv, take_refresh_lock, depth_or_zero, pending_task, full_queue_task, deliver_stored,
  submit_full, submit_open, submit_checked, submit, publish_state_changed, is_unset,
}

create-state_of :
    (db_ok : Bool) (now : ℕ) (t : Task) (table : Table)
    → (create db_ok now t table).0 ≡ ok tt
    → state_of t.task_id (create db_ok now t table).1 ≡ some t.state
unfolding create create_task
create-state_of true now t table h = elim (Option-cases (find_row t.task_id table)) [
  | inr (r, found) ↦ absurd (let no = rw found at h in cc)
  | inl missing ↦
      let row : Row = record { task = create_task t now; updated_at = now } in
      rw missing (ground (arith, find_row-insert t.task_id row table, missing, eq_refl t.task_id))
]
create-state_of false now t table h = absurd (cc)

deliver_stored-table :
    (cfg : Config) (env : SubmitEnv) (t : Task) (w : World)
    → (deliver_stored cfg env t w).0 ≡ ok tt
    → (deliver_stored cfg env t w).1.table ≡ w.table
unfolding deliver_stored publish_state_changed
deliver_stored-table cfg env t w h =
    let m : TaskMessage = record { task_id = t.task_id; type = t.type } in
    elim (Result-cases (publish env.wire m w.publisher).0) [
      | inr (x, q) ↦ absurd (ground (arith, q))
      | inl (x, q) ↦
          rw (q, deliver_stored)
            (elim (Bool-cases env.bus_ok) [ inl up ↦ rw up refl | inr down ↦ rw down refl ])
    ]

submit_open-Stored :
    (cfg : Config) (env : SubmitEnv) (depth : ℕ) (t : Task) (w : World)
    → (submit_open cfg env depth t w).0 ≡ ok tt
    → state_of t.task_id (submit_open cfg env depth t w).1.table ≡ some pending
unfolding submit_open
submit_open-Stored cfg env depth t w h =
    elim (Result-cases (create env.create_ok env.now (pending_task env depth t) w.table).0) [
      | inr (x, q) ↦ absurd (ground (arith, q))
      | inl (tt, q) ↦
          let w' = record w {
            table = (create env.create_ok env.now (pending_task env depth t) w.table).1;
          } in
          rw (q, submit_open)
            (ap (state_of t.task_id)
                (deliver_stored-table cfg env (pending_task env depth t) w' (ground (arith, q)))
              ∙ create-state_of env.create_ok env.now (pending_task env depth t) w.table q)
    ]

submit_full-err :
    (cfg : Config) (env : SubmitEnv) (t : Task) (w : World) → (submit_full cfg env t w).0 ≢ ok tt
unfolding submit_full
submit_full-err cfg env t w h =
    elim (Result-cases (create env.create_ok env.now (full_queue_task env t) w.table).0) [
      | inr (x, q) ↦ ground (arith, q)
      | inl (x, q) ↦ ground (arith, q)
    ]

submit_checked-Stored :
    (cfg : Config) (env : SubmitEnv) (t : Task) (w : World)
    → (submit_checked cfg env t w).0 ≡ ok tt
    → state_of t.task_id (submit_checked cfg env t w).1.table ≡ some pending
unfolding submit_checked
submit_checked-Stored cfg env t w h =
    let w₁ = (take_refresh_lock cfg env t w).1 in
    elim (Result-cases (take_refresh_lock cfg env t w).0) [
      | inr (x, q) ↦ absurd (ground (arith, q))
      | inl (x, q) ↦ elim (Bool-cases (leb cfg.queue_size (depth_or_zero env.depth))) [
        | inl over ↦ absurd (submit_full-err cfg env t w₁ (ground (arith, q, over)))
        | inr room ↦
            rw (q, submit_checked)
              (rw (room, submit_checked)
                (submit_open-Stored cfg env (depth_or_zero env.depth) t w₁
                  (ground (arith, q, room))))
      ]
    ]

-- A Submit that returns no error has stored the task, of whatever type, in the state pending under
-- its identifier.
pub submit-Stored :
    (cfg : Config) (env : SubmitEnv) (t : Task) (w : World)
    → str_eq t.task_id "" ≡ false
    → (submit cfg env t w).0 ≡ ok tt
    → state_of t.task_id (submit cfg env t w).1.table ≡ some pending
unfolding submit
submit-Stored cfg env t w named h = elim (Bool-cases (is_unset t.type)) [
  | inl unset ↦ absurd (let no = rw unset at h in cc)
  | inr set ↦ elim (Option-cases (first_state_of t.type)) [
    | inl unknown ↦ absurd (let no = rw (set, unknown) at h in cc)
    | inr (s, known) ↦
        rw (set, known, submit)
          (rw (named, submit)
            (submit_checked-Stored cfg env t w (ground (arith, set, known, named))))
  ]
]
