-- ===== src/Store/Invariant.antt =====
-- Well-formedness of the `tasks` table, kept by every operation of task/store.go.
use godeepwiki.Common.{
  ℕ, ◌≡◌, refl, inl, inr, Bool, true, false, not, List, [], ◌∷◌, Option, none, some, String, arith,
  Option-cases, Bool-cases, Result-cases, is_some, All, ok,
}
use godeepwiki.Model.Task.{
  Task, TaskState, TaskPatch, pending, failed, same_state, is_terminal, can_transition,
}
use godeepwiki.Store.Table.{Row, Table, find_row, update_where}
use godeepwiki.Store.Ops.{
  create_task, check_patch, apply_patch, update_locked, create, update_state, set_cancel_flag,
  reset_to_pending, fail_task, claim_pending, reset_stale_running,
}
use godeepwiki.Store.Keys.{
  Unique, update_where-Unique, insert-Unique, update_where-All, append-All, update_key-All,
}
use godeepwiki.Store.Moves.{
  StoreOp, creates, updates, flags, resets, fails, claims, unstales, apply_op, run_ops,
}

-- A finished task has its time of finishing, and a failed one its error.
abbrev pub TaskOk : Task → Type 0
TaskOk t =
    (is_terminal t.state ≡ true → is_some t.finished_at ≡ true)
    × (same_state t.state failed ≡ true → is_some t.error ≡ true)

abbrev pub RowOk : Row → Type 0
RowOk r = TaskOk r.task

pub record IsWellFormed (t : Table) : Type 0 where
  pub keyed : Unique t
  pub rows : All RowOk t

-- `Err` and `ClearErr` exclude one another, and the error is cleared only by a move to a state
-- other than `failed`.
abbrev pub clears_with : Option TaskState → Bool
clears_with none = false
clears_with (some s) = not (same_state s failed)

abbrev pub PatchOk : TaskPatch → Type 0
PatchOk p = p.clear_err ≡ true → clears_with p.state ≡ true

abbrev pub OpOk : StoreOp → Type 0
OpOk (creates db_ok now t) = TaskOk t
OpOk (updates a b now key patch) = PatchOk patch
OpOk (claims db_ok now key to) = is_terminal to ≡ false
OpOk _ = Unit {0}

create-IsWellFormed :
    (db_ok : Bool) (now : ℕ) (t : Task) (table : Table)
    → TaskOk t
    → IsWellFormed table
    → IsWellFormed (create db_ok now t table).1
unfolding create
create-IsWellFormed false now t table o w = w
create-IsWellFormed true now t table o w = elim (Option-cases (find_row t.task_id table)) [
  | inr (r, taken) ↦ rw (taken, create) w
  | inl free ↦
      let row : Row = record { task = create_task t now; updated_at = now } in
      rw (free, create)
        (record {
          keyed = insert-Unique row table free w.keyed;
          rows = append-All RowOk row table w.rows o;
        })
]

apply_patch_id :
    (p : TaskPatch) (now : ℕ) (r : Row) → (apply_patch p now r).task.task_id ≡ r.task.task_id
unfolding apply_patch
apply_patch_id p now r = refl

from_pending : (to : TaskState) → can_transition pending to ≡ true → same_state to failed ≡ false
unfolding can_transition
from_pending to h = ground arith

-- The row that the checks were made on satisfies the condition after the assignment.
patched-RowOk :
    (patch p : TaskPatch) (k : Row) (o : Option TaskState) (now now' : ℕ)
    → patch.state ≡ o
    → PatchOk patch
    → check_patch k.task.state o patch now ≡ ok p
    → RowOk k
    → RowOk (apply_patch p now' k)
unfolding check_patch apply_patch
patched-RowOk patch p k none now now' e o c h =
    (λ t. ground (arith, h.0), λ t. ground (arith, h.1, o))
patched-RowOk patch p k (some to) now now' e o c h =
    (λ t. ground (arith, h.0), λ t. ground (arith, h.1, o))

update_locked-IsWellFormed :
    (b : Bool) (now : ℕ) (key : String) (patch : TaskPatch) (table : Table) (k : Row)
    → PatchOk patch
    → find_row key table ≡ some k
    → IsWellFormed table
    → IsWellFormed (update_locked b now key patch table (some k)).1
unfolding update_locked
update_locked-IsWellFormed false now key patch table k o e w =
    elim (Result-cases (check_patch k.task.state patch.state patch now)) [
      | inl (p, c) ↦ rw (c, update_locked) w
      | inr (x, c) ↦ rw (c, update_locked) w
    ]
update_locked-IsWellFormed true now key patch table k o e w =
    elim (Result-cases (check_patch k.task.state patch.state patch now)) [
      | inr (x, c) ↦ rw (c, update_locked) w
      | inl (p, c) ↦
          rw (c, update_locked)
            (record {
              keyed = update_where-Unique _ _ table (apply_patch_id p now) w.keyed;
              rows =
                  update_key-All RowOk key (apply_patch p now) table k w.keyed e
                    (patched-RowOk patch p k patch.state now now refl o c) w.rows;
            })
    ]

update-IsWellFormed :
    (a b : Bool) (now : ℕ) (key : String) (patch : TaskPatch) (table : Table)
    → PatchOk patch
    → IsWellFormed table
    → IsWellFormed (update_state a b now key patch table).1
unfolding update_state
update-IsWellFormed false b now key patch table o w = w
update-IsWellFormed true b now key patch table o w = elim (Option-cases (find_row key table)) [
  | inl missing ↦ rw (missing, update_state) w
  | inr (k, found) ↦
      rw (found, update_state) (update_locked-IsWellFormed b now key patch table k o found w)
]

-- An UPDATE by any condition that keeps the keys and the condition on a row.
where-IsWellFormed :
    (p : Row → Bool) (f : Row → Row) (table : Table)
    → ((r : Row) → (f r).task.task_id ≡ r.task.task_id)
    → ((r : Row) → p r ≡ true → RowOk r → RowOk (f r))
    → IsWellFormed table
    → IsWellFormed (update_where p f table)
where-IsWellFormed p f table k keep w = record {
  keyed = update_where-Unique p f table k w.keyed;
  rows = update_where-All RowOk p f table keep w.rows;
}

claim-IsWellFormed :
    (db_ok : Bool) (now : ℕ) (key : String) (to : TaskState) (table : Table)
    → is_terminal to ≡ false
    → IsWellFormed table
    → IsWellFormed (claim_pending db_ok now key to table).1
unfolding claim_pending
claim-IsWellFormed db_ok now key to table o w = elim (Bool-cases (can_transition pending to)) [
  | inr bad ↦ rw (bad, claim_pending) w
  | inl fine ↦ elim (Bool-cases db_ok) [
    | inr down ↦ rw (fine, down, claim_pending) w
    | inl up ↦
        rw (fine, up, claim_pending)
          (where-IsWellFormed _ _ table (λ r. refl)
            (λ r hit h. (λ t. cc (t, o), λ t. absurd (ground (arith, from_pending to fine)))) w)
  ]
]

-- Every operation keeps the keys unique, a time of finishing on each terminal task and an error on
-- each failed one, if an inserted task has these, a patch clears the error only when it moves the
-- task to a state other than `failed`, and a claim is not made for a terminal state.
pub apply_op-IsWellFormed :
    (op : StoreOp) (table : Table) → OpOk op → IsWellFormed table → IsWellFormed (apply_op op table)
unfolding apply_op set_cancel_flag reset_to_pending fail_task reset_stale_running is_terminal
apply_op-IsWellFormed (creates db_ok now t) table o w = create-IsWellFormed db_ok now t table o w
apply_op-IsWellFormed (updates a b now key patch) table o w =
    update-IsWellFormed a b now key patch table o w
apply_op-IsWellFormed (flags false now key) table o w = w
apply_op-IsWellFormed (flags true now key) table o w =
    where-IsWellFormed _ _ table (λ r. refl) (λ r hit h. h) w
apply_op-IsWellFormed (resets false now key) table o w = w
apply_op-IsWellFormed (resets true now key) table o w =
    where-IsWellFormed _ _ table (λ r. refl) (λ r hit h. (λ t. cc, λ t. cc)) w
apply_op-IsWellFormed (fails false now key x) table o w = w
apply_op-IsWellFormed (fails true now key x) table o w =
    where-IsWellFormed _ _ table (λ r. refl) (λ r hit h. (λ t. refl, λ t. refl)) w
apply_op-IsWellFormed (claims db_ok now key to) table o w =
    claim-IsWellFormed db_ok now key to table o w
apply_op-IsWellFormed (unstales false now before) table o w = w
apply_op-IsWellFormed (unstales true now before) table o w =
    where-IsWellFormed _ _ table (λ r. refl) (λ r hit h. (λ t. cc, λ t. cc)) w

-- Take operations that create tasks which, if finished, have their time of finishing and, if failed,
-- their error; whose patches clear an error only with a move to a state other than `failed`; and
-- that claim a task only for a state that is not final. Then no sequence of them, from a well-formed
-- table on, breaks its form: identifiers are unique, finished tasks have their time of finishing,
-- failed ones their error.
pub run_ops-IsWellFormed :
    (ops : List StoreOp) (table : Table)
    → All OpOk ops
    → IsWellFormed table
    → IsWellFormed (run_ops ops table)
unfolding run_ops
run_ops-IsWellFormed [] table o w = w
run_ops-IsWellFormed (op ∷ ops) table o w =
    run_ops-IsWellFormed ops (apply_op op table) o.1 (apply_op-IsWellFormed op table o.0 w)
