-- ===== src/Manager/Dispatch/Duplicates.antt =====
-- A message that is delivered again: dispatch of task/manager.go for a task that is not pending.
use godeepwiki.Common.{
  ℕ, ◌≡◌, refl, ◌∙◌, inl, inr, Bool, true, false, ◌&&◌, [], ◌∷◌, Option, some, String, str_eq,
  arith, Option-cases, Bool-cases, ok,
}
use godeepwiki.Model.Task.{TaskType, TaskState, pending, can_transition, same_state}
use godeepwiki.Store.Table.{Row, Table, find_row, update_where, state_of, affected, has_id}
use godeepwiki.Store.Keys.{Unique, affected-find_row}
use godeepwiki.Store.Claim.{is_pending, claim_pending_lem}
use godeepwiki.Store.Ops.{claim_pending}
use godeepwiki.Queue.Rabbit.{TaskMessage}
use godeepwiki.Manager.State.{World, Config, acks, settle_with, first_state_of}
use godeepwiki.Manager.Dispatch.{DispatchEnv, Executor, Delivery, dispatch, dispatch_message}
use godeepwiki.Manager.Pool.{handle_one}

-- An UPDATE that touches no row leaves the table as it is.
update_where_none :
    (p : Row → Bool) (f : Row → Row) (t : Table) → affected p t ≡ 0 → update_where p f t ≡ t
unfolding update_where
update_where_none p f [] h = refl
update_where_none p f (x ∷ t) h = elim (Bool-cases (p x)) [
  | inl hit ↦ absurd (ground arith)
  | inr miss ↦ ground (arith, update_where_none p f t)
]

first_state_of-can_transition :
    (type : TaskType) (first : TaskState)
    → first_state_of type ≡ some first
    → can_transition pending first ≡ true
unfolding first_state_of can_transition
first_state_of-can_transition type first h = ground arith

claim_lost :
    (now : ℕ) (id : String) (to : TaskState) (t : Table)
    → Unique t
    → can_transition pending to ≡ true
    → is_pending (state_of id t) ≡ false
    → ((claim_pending true now id to t).0 ≡ ok false) × ((claim_pending true now id to t).1 ≡ t)
unfolding claim_pending
claim_lost now id to t u h n =
    let none_hit : affected (λ r. has_id id r && same_state r.task.state pending) t ≡ 0 =
      affected-find_row id (λ r. same_state r.task.state pending) t u
      ∙ elim (Option-cases (find_row id t)) [
        | inl missing ↦ rw missing refl
        | inr (r, found) ↦ rw found (ground arith)
      ] in
    (rw ((claim_pending_lem now id to t u h).0, n) refl, rw h (update_where_none _ _ t none_hit))

-- A worker that gets the message of a task that is not pending (done, running elsewhere, cancelled,
-- or not there), while the table answers, acknowledges it and does nothing else: the executor does
-- not run, and the table, the locks and the queues stay as they are.
pub handle_one_duplicate :
    (cfg : Config) (env : DispatchEnv) (executors : TaskType → Option Executor) (d : Delivery)
    (m : TaskMessage) (first : TaskState) (w : World)
    → d.body ≡ some m
    → str_eq m.task_id "" ≡ false
    → first_state_of m.type ≡ some first
    → env.claim_ok ≡ true
    → Unique w.table
    → is_pending (state_of m.task_id w.table) ≡ false
    → handle_one cfg env executors d w ≡ settle_with d.tag acks w
unfolding handle_one dispatch dispatch_message
handle_one_duplicate cfg env executors d m first w b i f c u n =
    let (lost, same) =
      claim_lost env.now m.task_id first w.table u (first_state_of-can_transition m.type first f)
        n in
    rw (b, handle_one, dispatch)
      (rw (i, handle_one, dispatch)
        (rw (f, dispatch_message, handle_one) (rw (c, lost, handle_one) (rw (c, same) refl))))
