-- ===== src/Store/Table.antt =====
-- The `tasks` table of Postgres (deepwiki/migrations, internal/task/store.go): a list of rows, with
-- what SELECT by key and UPDATE ... WHERE do to it.
use mathlib.Core.Option
use godeepwiki.Common.{
  ℕ, ◌≡◌, refl, Bool, List, [], ◌∷◌, ◌++◌, Option, none, some, String, str_eq, eq_iff, arith,
  if◌then◌else◌, count_if, or_else,
}
use godeepwiki.Model.Task.{Task, TaskState}

pub record Row : Type 0 where
  pub task : Task
  pub updated_at : ℕ

abbrev pub Table : Type 0
Table = List Row

-- WHERE task_id = $1
abbrev pub has_id : String → Row → Bool
has_id id r = str_eq r.task.task_id id

unfoldable pub find_row : String → Table → Option Row
find_row id [] = none
find_row id (r ∷ rs) = if has_id id r then some r else find_row id rs

-- UPDATE tasks SET f WHERE p
unfoldable pub update_where : (Row → Bool) → (Row → Row) → Table → Table
update_where p f [] = []
update_where p f (r ∷ rs) = (if p r then f r else r) ∷ update_where p f rs

abbrev pub affected : (Row → Bool) → Table → ℕ
affected p rows = count_if p rows

abbrev pub KeepsId : (Row → Row) → Type 0
KeepsId f = (r : Row) → (f r).task.task_id ≡ r.task.task_id

abbrev pub state_of : String → Table → Option TaskState
state_of id t = Option.map (λ r. r.task.state) (find_row id t)

-- A lookup after an update finds the updated row.
pub find_row-update_where :
    (id : String) (p : Row → Bool) (f : Row → Row) (t : Table)
    → KeepsId f
    → find_row id (update_where p f t) ≡ Option.map (λ r. if p r then f r else r) (find_row id t)
unfolding find_row update_where
find_row-update_where id p f [] k = refl
find_row-update_where id p f (r ∷ rs) k = ground (arith, k r, find_row-update_where id p f rs k)

-- An insert of a new key is found under that key, and leaves every other key alone.
pub find_row-insert :
    (id : String) (r : Row) (t : Table)
    → find_row id (t ++ r ∷ []) ≡ or_else (find_row id t) (if has_id id r then some r else none)
unfolding find_row
find_row-insert id r [] = ground arith
find_row-insert id r (x ∷ t) = ground (arith, find_row-insert id r t)

pub find_row-id : (id : String) (t : Table) (r : Row) → find_row id t ≡ some r → r.task.task_id ≡ id
unfolding find_row
find_row-id id [] r h = ground arith
find_row-id id (x ∷ t) r h = ground (arith, eq_iff x.task.task_id id, find_row-id id t r)
