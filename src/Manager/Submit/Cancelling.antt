-- ===== src/Manager/Submit/Cancelling.antt =====
-- What Cancel of task/manager.go does to a task.
use mathlib.Core.Option
use godeepwiki.Common.Dict.{lookup, lookup-insert}
use godeepwiki.Common.{
  ℕ, suc, ◌≡◌, refl, ap, ◌∙◌, inl, inr, Bool, true, false, [], ◌∷◌, Option, some, String, arith,
  eq_refl, Option-cases, Bool-cases, ok, err,
}
use godeepwiki.Model.Task.{TaskState, cancelled, is_terminal, can_transition}
use godeepwiki.Model.Errors.{invalid_task_state}
use godeepwiki.Store.Table.{
  Row, Table, find_row, update_where, affected, has_id, KeepsId, find_row-update_where,
}
use godeepwiki.Store.Keys.{has_id-find_row}
use godeepwiki.Store.Ops.{
  get, set_cancel_flag, update_state, update_locked, check_patch, apply_patch,
}
use godeepwiki.Manager.State.{World}
use godeepwiki.Manager.Submit.{CancelEnv, cancel, cancel_live, signal_cancel, cancel_patch}

affected-found :
    (id : String) (t : Table) (r : Row)
    → find_row id t ≡ some r
    → (n : ℕ) × (affected (has_id id) t ≡ suc n)
unfolding find_row
affected-found id [] r e = absurd (ground arith)
affected-found id (x ∷ t) r e = elim (Bool-cases (has_id id x)) [
  | inl hit ↦ (affected (has_id id) t, ground arith)
  | inr miss ↦ let (n, q) = affected-found id t r (ground arith) in (n, ground arith)
]

find_row-found :
    (id : String) (f : Row → Row) (t : Table) (r : Row)
    → KeepsId f
    → find_row id t ≡ some r
    → find_row id (update_where (has_id id) f t) ≡ some (f r)
find_row-found id f t r k e =
    rw (find_row-update_where id (has_id id) f t k, e, has_id-find_row id t r e) refl

-- The environment in which the table answers every call.
abbrev pub AllUp : CancelEnv → Type 0
AllUp env =
    (env.get_ok ≡ true) × (env.flag_ok ≡ true) × (env.reads_ok ≡ true) × (env.writes_ok ≡ true)

set_cancel_flag_lem :
    (db_ok : Bool) (now : ℕ) (id : String) (t : Table) (r : Row)
    → db_ok ≡ true
    → find_row id t ≡ some r
    → ((set_cancel_flag db_ok now id t).0 ≡ ok tt)
      × (find_row id (set_cancel_flag db_ok now id t).1
          ≡ some (record { task = record r.task { cancel_flag = true }; updated_at = now }))
unfolding set_cancel_flag
set_cancel_flag_lem db_ok now id t r up e =
    let (n, q) = affected-found id t r e in
    rw (up, set_cancel_flag) (rw q refl, find_row-found id _ t r (λ x. refl) e)

-- The state and the cancel flag of a task, if it is there.
abbrev pub mark_of : String → Table → Option (TaskState × Bool)
mark_of id t =
    Option.map {B = TaskState × Bool} (λ x. (x.task.state, x.task.cancel_flag)) (find_row id t)

check_cancel :
    (s : TaskState) (now : ℕ)
    → is_terminal s ≡ false
    → check_patch s (some cancelled) (cancel_patch now) now ≡ ok (cancel_patch now)
unfolding check_patch is_terminal can_transition
check_cancel s now live = ground arith

cancel_state_lem :
    (reads_ok writes_ok : Bool) (now : ℕ) (id : String) (t : Table) (r : Row)
    → reads_ok ≡ true
    → writes_ok ≡ true
    → find_row id t ≡ some r
    → is_terminal r.task.state ≡ false
    → ((update_state reads_ok writes_ok now id (cancel_patch now) t).0 ≡ ok tt)
      × (mark_of id (update_state reads_ok writes_ok now id (cancel_patch now) t).1
          ≡ some (cancelled, r.task.cancel_flag))
unfolding update_state update_locked apply_patch
cancel_state_lem reads_ok writes_ok now id t r a b e live =
    let (n, q) = affected-found id t r e in
    rw (a, e, update_state)
      (rw (check_cancel r.task.state now live, b, update_locked)
        (
          rw q refl,
          ap (Option.map {B = TaskState × Bool} (λ x. (x.task.state, x.task.cancel_flag)))
              (find_row-found id _ t r (λ x. refl) e),
        ))

signal_cancel_lem :
    (id : String) (w : World)
    → ((signal_cancel id w).table ≡ w.table)
      × (lookup id (signal_cancel id w).cancels ≡ Option.map (λ c. true) (lookup id w.cancels))
unfolding signal_cancel
signal_cancel_lem id w = elim (Option-cases (lookup id w.cancels)) [
  | inl e ↦ rw (e, signal_cancel) (refl, e)
  | inr (c, e) ↦
      rw (e, signal_cancel) (refl, ground (arith, lookup-insert id id true w.cancels, eq_refl id))
]

cancel_live_lem :
    (env : CancelEnv) (id : String) (r : Row) (w : World)
    → env.flag_ok ≡ true
    → env.reads_ok ≡ true
    → env.writes_ok ≡ true
    → find_row id w.table ≡ some r
    → is_terminal r.task.state ≡ false
    → let (res, w') = cancel_live env id w in
      (res ≡ ok tt)
      × (mark_of id w'.table ≡ some (cancelled, true))
      × (lookup id w'.cancels ≡ Option.map (λ c. true) (lookup id w.cancels))
unfolding cancel_live
cancel_live_lem env id r w f a b e live =
    let flagged = (set_cancel_flag env.flag_ok env.now id w.table).1 in
    let (set, found) = set_cancel_flag_lem env.flag_ok env.now id w.table r f e in
    let (moved, mark) =
      cancel_state_lem env.reads_ok env.writes_ok env.now id flagged
        (record { task = record r.task { cancel_flag = true }; updated_at = env.now }) a b found
        live in
    let w₁ : World = record w {
      table = (update_state env.reads_ok env.writes_ok env.now id (cancel_patch env.now) flagged).1;
    } in
    let (table, signal) = signal_cancel_lem id w₁ in
    rw (set, cancel_live) (rw (moved, cancel_live) (refl, ap (mark_of id) table ∙ mark, signal))

-- Cancel, while the table answers. A task that is finished stays as it is, and the caller learns it.
-- Any other becomes cancelled with its flag set, at once, and if it runs here its context is
-- cancelled.
pub cancel_lem :
    (env : CancelEnv) (id : String) (r : Row) (w : World)
    → AllUp env
    → find_row id w.table ≡ some r
    → (is_terminal r.task.state ≡ true → cancel env id w ≡ (err invalid_task_state, w))
      × (is_terminal r.task.state ≡ false
          → let (res, w') = cancel env id w in
            (res ≡ ok tt)
            × (mark_of id w'.table ≡ some (cancelled, true))
            × (lookup id w'.cancels ≡ Option.map (λ c. true) (lookup id w.cancels)))
unfolding cancel get cancel_live signal_cancel
cancel_lem env id r w (g, f, a, b) e = (
  λ over. rw (g, cancel) (rw (e, cancel) (rw over refl)),
  λ live.
      rw (g, cancel) (rw (e, cancel) (rw (live, cancel) (cancel_live_lem env id r w f a b e live))),
)
