-- ===== src/Service/Desk.antt =====
-- What the services of deepwiki/internal/service (ingest_service.go, wiki_service.go, repo_service.go) work
-- on: the tables, the indexes by repository, and the world of the task manager, which holds the `tasks`
-- table. The deletion of a row of `repos` cascades as migrations/000001_init.up.sql says.
use godeepwiki.Common.{
  ℕ, Bool, true, false, not, String, List, [], ◌∷◌, none, str_eq, if◌then◌else◌, select, Result, ok,
  err,
}
use godeepwiki.Model.Task.{Task, TaskType, TaskFilter, is_terminal, pending}
use godeepwiki.Model.Chunk.{Chunk}
use godeepwiki.Model.Errors.{Error}
use godeepwiki.Store.Table.{Row, Table, update_where}
use godeepwiki.Store.Chunks.{of_repo}
use godeepwiki.Store.Repos.{Repos, delete_repo}
use godeepwiki.Store.Wikis.{Wikis, of_other}
use godeepwiki.Search.Index.{Index}
use godeepwiki.Manager.State.{World}

pub record Desk : Type 0 where
  pub repos : Repos
  pub chunks : List Chunk
  pub wikis : Wikis
  pub indexes : List (String × Index)
  pub world : World

abbrev pub task_of_repo : String → Row → Bool
task_of_repo id r = str_eq r.task.repo_id id

-- ON DELETE SET NULL; a NULL is read as the empty text.
unfoldable pub forget_repo : String → Table → Table
unfolding update_where
forget_repo id table =
    update_where (task_of_repo id) (λ r. record r { task = record r.task { repo_id = "" } }) table

abbrev pub cascaded :
    String → Desk → Result Error (Unit {0}) × Repos → Result Error (Unit {0}) × Desk
cascaded id desk (err e, repos) = (err e, record desk { repos = repos })
cascaded id desk (ok _, repos) = (
  ok tt,
  record desk {
    repos = repos;
    chunks = select (λ c. not (of_repo id c)) desk.chunks;
    wikis = select (of_other id) desk.wikis;
    world = record desk.world { table = forget_repo id desk.world.table };
  },
)

-- RepoStore.Delete with its cascade.
unfoldable pub delete_cascade : Bool → String → Desk → Result Error (Unit {0}) × Desk
unfolding delete_repo forget_repo
delete_cascade db_ok id desk = cascaded id desk (delete_repo db_ok id desk.repos)

abbrev pub new_task : String → TaskType → String → String → ℕ → Task
new_task id type repo_id payload now = record {
  task_id = id;
  type = type;
  repo_id = repo_id;
  state = pending;
  progress = record { current = 0; total = 0; percent = 0 };
  stats = record { files = 0; chunks = 0; tokens = 0 };
  error = none;
  queue_position = 0;
  cancel_flag = false;
  request_payload = payload;
  created_at = now;
  started_at = none;
  finished_at = none;
}

abbrev pub tasks_of : String → TaskFilter
tasks_of repo_id = record {
  type = none;
  state = none;
  repo_id = repo_id;
  page = 1;
  page_size = 100;
}

abbrev pub all_terminal : List Task → Bool
all_terminal [] = true
all_terminal (t ∷ ts) = let rest = all_terminal ts in if is_terminal t.state then rest else false

-- No task of the list is still alive; a list that could not be read is not looked at.
unfoldable pub is_idle : Result Error (List Task × ℕ) → Bool
unfolding is_terminal
is_idle (err e) = true
is_idle (ok (ts, n)) = all_terminal ts
