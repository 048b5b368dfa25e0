-- ===== src/Store/Ops.antt =====
-- The operations of postgresTaskStore (deepwiki/internal/task/store.go). Each takes the time `now`
-- and whether the database carries a statement out; a statement that it refuses changes nothing.
use godeepwiki.Common.{
  ℕ, zero, suc, ◌-◌, ◌*◌, Bool, true, not, ◌&&◌, ◌||◌, List, [], ◌∷◌, ◌++◌, map, Option, none, some,
  String, str_eq, if◌then◌else◌, or_else, is_some, select, take, drop, length, leb, ltb, ◌==◌,
  Result, ok, err,
}
use godeepwiki.Model.Task.{
  Task, TaskState, TaskError, TaskPatch, TaskFilter, pending, failed, same_state, same_type,
  is_terminal, can_transition,
}
use godeepwiki.Model.Errors.{Error, task_not_found, invalid_task_state, wrapped}
use godeepwiki.Store.Table.{Row, Table, has_id, find_row, update_where, affected}

-- INSERT: `created_at` defaults to now, as `updated_at` does; a key that is taken is refused.
unfoldable pub create_task : Task → ℕ → Task
create_task t now = record t { created_at = if t.created_at == 0 then now else t.created_at }

unfoldable pub create : Bool → ℕ → Task → Table → Result Error (Unit {0}) × Table
unfolding create_task find_row
create db_ok now t table =
    if db_ok && not (is_some (find_row t.task_id table))
    then (ok tt, table ++ (record { task = create_task t now; updated_at = now }) ∷ [])
    else (err (wrapped "insert task"), table)

unfoldable pub get : Bool → String → Table → Result Error Task
unfolding find_row
get db_ok id table =
    if db_ok
    then elim (find_row id table) [ none ↦ err task_not_found | some r ↦ ok r.task ]
    else err (wrapped "select task")

-- The checks on a patch that moves the state; a terminal state gets its `finished_at`.
check_state : TaskState → TaskState → TaskPatch → ℕ → Result Error TaskPatch
check_state cur to patch now =
    let stamped = or_else patch.finished_at (if is_terminal to then some now else none) in
    if not (same_state to cur) && not (can_transition cur to)
    then err invalid_task_state
    else if same_state to failed && not (is_some patch.error)
    then err (wrapped "task: failed state requires Err")
    else ok (record patch { finished_at = stamped })

unfoldable pub check_patch : TaskState → Option TaskState → TaskPatch → ℕ → Result Error TaskPatch
unfolding check_state
check_patch cur none patch now = ok patch
check_patch cur (some to) patch now = check_state cur to patch now

abbrev pub value_or {ℓ} : {A : Type ℓ} → Option A → A → A
value_or none a = a
value_or (some b) a = b

-- The SET list: one assignment for each pointer that is not nil.
unfoldable pub apply_patch : TaskPatch → ℕ → Row → Row
apply_patch patch now r = record {
  task = record t {
    state = value_or patch.state t.state;
    progress = value_or patch.progress t.progress;
    stats = value_or patch.stats t.stats;
    error = if patch.clear_err then none else or_else patch.error t.error;
    queue_position = value_or patch.queue_position t.queue_position;
    started_at = or_else patch.started_at t.started_at;
    finished_at = or_else patch.finished_at t.finished_at;
  };
  updated_at = now;
}
  where
    open r use {task as t}

-- The result of an UPDATE by key, by the number of rows that it touched.
abbrev found_or : ℕ → Error → Result Error (Unit {0})
found_or zero e = err e
found_or (suc n) e = ok tt

-- The transaction from the row that SELECT ... FOR UPDATE found.
unfoldable pub update_locked :
    Bool → ℕ → String → TaskPatch → Table → Option Row → Result Error (Unit {0}) × Table
unfolding check_patch apply_patch update_where
update_locked writes_ok now id patch table none = (err task_not_found, table)
update_locked writes_ok now id patch table (some r) =
    elim (check_patch r.task.state patch.state patch now) [
      | err e ↦ (err e, table)
      | ok p ↦
          if writes_ok
          then (
            found_or (affected (has_id id) table) task_not_found,
            update_where (has_id id) (apply_patch p now) table,
          )
          else (err (wrapped "update task state"), table)
    ]

unfoldable pub update_state :
    Bool → Bool → ℕ → String → TaskPatch → Table → Result Error (Unit {0}) × Table
unfolding update_locked find_row
update_state reads_ok writes_ok now id patch table =
    if reads_ok
    then update_locked writes_ok now id patch table (find_row id table)
    else (err (wrapped "begin update state"), table)

-- An UPDATE by a condition, for the operations that report a missing task.
abbrev update_or_missing :
    Bool → (Row → Bool) → (Row → Row) → String → Table → Result Error (Unit {0}) × Table
update_or_missing db_ok p f what table =
    if db_ok
    then (found_or (affected p table) task_not_found, update_where p f table)
    else (err (wrapped what), table)

unfoldable pub set_cancel_flag : Bool → ℕ → String → Table → Result Error (Unit {0}) × Table
unfolding update_where
set_cancel_flag db_ok now id table =
    update_or_missing db_ok (has_id id)
      (λ r. record { task = record r.task { cancel_flag = true }; updated_at = now })
      "set cancel flag" table

-- state NOT IN ('completed','failed','cancelled')
abbrev pub is_live : Row → Bool
is_live r = not (is_terminal r.task.state)

abbrev set_state : TaskState → ℕ → Row → Row
set_state s now r = record { task = record r.task { state = s }; updated_at = now }

unfoldable pub reset_to_pending : Bool → ℕ → String → Table → Result Error (Unit {0}) × Table
unfolding update_where is_terminal
reset_to_pending db_ok now id table =
    update_or_missing db_ok (λ r. has_id id r && is_live r) (set_state pending now)
      "reset to pending" table

-- Straight to `failed`, with no look at the transition table; a terminal task is left alone.
unfoldable pub fail_task : Bool → ℕ → String → TaskError → Table → Result Error (Unit {0}) × Table
unfolding update_where is_terminal
fail_task db_ok now id e table =
    update_or_missing db_ok (λ r. has_id id r && is_live r)
      (λ r. record {
        task = record r.task { state = failed; error = some e; finished_at = some now };
        updated_at = now;
      })
      "fail task" table

-- The compare-and-set from `pending`; `true` when exactly one row was taken.
unfoldable pub claim_pending : Bool → ℕ → String → TaskState → Table → Result Error Bool × Table
unfolding update_where can_transition
claim_pending db_ok now id to table =
    let p = λ (r : Row). has_id id r && same_state r.task.state pending in
    if not (can_transition pending to)
    then (err (wrapped "invalid pending transition"), table)
    else if db_ok
    then (
      ok (affected p table == 1),
      update_where p
          (λ r. record {
            task = record r.task { state = to; started_at = some now };
            updated_at = now;
          })
          table,
    )
    else (err (wrapped "claim pending"), table)

-- Running and not touched since `stale_before`: back to `pending`. The number of rows is returned.
unfoldable pub reset_stale_running : Bool → ℕ → ℕ → Table → Result Error ℕ × Table
unfolding update_where is_terminal
reset_stale_running db_ok now stale_before table =
    let p = λ (r : Row).
      is_live r && (not (same_state r.task.state pending) && ltb r.updated_at stale_before) in
    if db_ok
    then (ok (affected p table), update_where p (set_state pending now) table)
    else (err (wrapped "reset stale running"), table)

-- ORDER BY created_at: rows of one time keep their order in the table.
unfoldable pub insert_by : (Task → Task → Bool) → Task → List Task → List Task
insert_by before t [] = t ∷ []
insert_by before t (u ∷ us) =
    let rest = insert_by before t us in if before t u then t ∷ u ∷ us else u ∷ rest

unfoldable pub order_by : (Task → Task → Bool) → List Task → List Task
unfolding insert_by
order_by before [] = []
order_by before (t ∷ ts) = insert_by before t (order_by before ts)

abbrev pub older_first : Task → Task → Bool
older_first t u = leb t.created_at u.created_at

abbrev pub newer_first : Task → Task → Bool
newer_first t u = leb u.created_at t.created_at

abbrev pub tasks_where : (Row → Bool) → Table → List Task
tasks_where p table = map (λ r. r.task) (select p table)

unfoldable pub find_interrupted : Bool → Table → Result Error (List Task)
unfolding order_by is_terminal
find_interrupted db_ok table =
    if db_ok
    then ok (order_by older_first (tasks_where is_live table))
    else err (wrapped "find interrupted")

unfoldable pub find_stale : Bool → ℕ → Table → Result Error (List Task)
unfolding order_by is_terminal
find_stale db_ok stale_before table =
    if db_ok
    then ok
        (order_by older_first (tasks_where (λ r. is_live r && ltb r.updated_at stale_before) table))
    else err (wrapped "find stale")

-- One condition of `buildWhere`: a nil pointer or an empty text asks for nothing.
abbrev wants {ℓ} : {A : Type ℓ} → (A → A → Bool) → Option A → A → Bool
wants same none a = true
wants same (some b) a = same a b

unfoldable pub build_where : TaskFilter → Row → Bool
build_where f r =
    wants same_type f.type r.task.type
    && (wants same_state f.state r.task.state
        && (str_eq f.repo_id "" || str_eq r.task.repo_id f.repo_id))

unfoldable pub page_of : ℕ → ℕ
page_of page = if ltb page 1 then 1 else page

unfoldable pub page_size_of : ℕ → ℕ
page_size_of size =
    let given = if leb size 0 then 20 else size in if ltb 100 given then 100 else given

unfoldable pub list : Bool → TaskFilter → Table → Result Error (List Task × ℕ)
unfolding build_where page_of page_size_of order_by
list db_ok f table =
    let size = page_size_of f.page_size in
    let rows = tasks_where (build_where f) table in
    if db_ok
    then ok
        (take size (drop ((page_of f.page - 1) * size) (order_by newer_first rows)), length rows)
    else err (wrapped "count tasks")
