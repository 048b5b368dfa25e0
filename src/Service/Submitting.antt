-- ===== src/Service/Submitting.antt =====
-- IngestService (deepwiki/internal/service/ingest_service.go) and WikiService.Generate (wiki_service.go) over
-- the stores and Manager.Submit. `encode` is the JSON text of a request. The details of an API error
-- (the identifier of the repository that exists) are left out.
pub mod Rollback
pub mod Admission
use godeepwiki.Common.{
  ℕ, Bool, true, false, not, String, List, [], ◌∷◌, Option, none, some, str_eq, if◌then◌else◌, leb,
  Result, ok, err,
}
use godeepwiki.Model.Task.{Task, TaskType, ingest, refresh, wiki}
use godeepwiki.Model.Repo.{Repo, repo_state_ingesting, repo_state_ready}
use godeepwiki.Model.Errors.{
  Error, api_error, repo_not_found, repo_already_exists, queue_full, message_of, code_invalid_param,
  code_repo_already_exists, code_invalid_task_state,
}
use godeepwiki.Store.Ops.{list}
use godeepwiki.Store.Chunks.{valid_repo_id}
use godeepwiki.Store.Repos.{Repos, create_repo, get_repo, get_by_url_branch}
use godeepwiki.Queue.Publisher.{DepthReply, queue_depth}
use godeepwiki.Manager.State.{World, Config}
use godeepwiki.Manager.Submit.{SubmitEnv, submit}
use godeepwiki.Service.Site.{IngestOptionsDto}
use godeepwiki.Service.Desk.{Desk, delete_cascade, new_task, tasks_of, is_idle}

pub record IngestRequest : Type 0 where
  pub repo_url : String
  pub branch : String
  pub auto_wiki : Bool
  pub options : Option IngestOptionsDto

-- What the outer systems do during one request. Without a publisher there is no look at the queue
-- beforehand, and without a cloner no look at the remote repository.
pub record RequestEnv : Type 0 where
  pub now : ℕ
  pub repo_id : String
  pub task_id : String
  pub precheck : Option DepthReply
  pub ls_remote : Option (Result Error String)
  pub url_ok : Bool
  pub create_ok : Bool
  pub delete_ok : Bool
  pub get_ok : Bool
  pub list_ok : Bool
  pub submit : SubmitEnv

-- The identifiers of the task and of its repository.
abbrev pub Submitted : Type 0
Submitted = Result Error (String × String) × Desk

unfoldable pub is_full : Config → Option DepthReply → Bool
unfolding queue_depth
is_full cfg none = false
is_full cfg (some reply) = elim (queue_depth reply) [
  | err e ↦ false
  | ok depth ↦ leb cfg.queue_size depth
]

abbrev pub remote_commit : Option (Result Error String) → String
remote_commit none = ""
remote_commit (some (err e)) = ""
remote_commit (some (ok commit)) = commit

module _ (encode : IngestRequest → String) (cfg : Config) (env : RequestEnv) where
  abbrev pub new_repo : IngestRequest → Repo
  new_repo req = record {
    repo_id = env.repo_id;
    repo_url = req.repo_url;
    branch = req.branch;
    commit_hash = remote_commit env.ls_remote;
    local_path = "";
    state = repo_state_ingesting;
    stats = record { files = 0; chunks = 0; tokens = 0 };
    created_at = env.now;
    updated_at = env.now;
  }

  -- A submission that fails takes the new repository back; an error of that DELETE is only logged.
  unfoldable pub submitted : String → Desk → Result Error (Unit {0}) × World → Submitted
  unfolding delete_cascade
  submitted task_id desk (err e, world) =
      (err e, (delete_cascade env.delete_ok env.repo_id (record desk { world = world })).1)
  submitted task_id desk (ok _, world) = (ok (task_id, env.repo_id), record desk { world = world })

  unfoldable pub repo_created : IngestRequest → Desk → Result Error (Unit {0}) × Repos → Submitted
  unfolding submitted submit
  repo_created req desk (err e, repos) = (err e, record desk { repos = repos })
  repo_created req desk (ok _, repos) =
      submitted env.task_id (record desk { repos = repos })
        (submit cfg env.submit (new_task env.task_id ingest env.repo_id (encode req) env.now)
          desk.world)

  -- A repository of the address and branch is refused; any other error than its absence ends the
  -- request.
  unfoldable pub looked_up : IngestRequest → Desk → Result Error Repo → Submitted
  unfolding repo_created create_repo
  looked_up req desk (ok r) =
      (err (api_error code_repo_already_exists (message_of code_repo_already_exists)), desk)
  looked_up req desk (err repo_not_found) =
      repo_created req desk (create_repo env.create_ok env.now (new_repo req) desk.repos)
  looked_up req desk (err e) = (err e, desk)

  unfoldable pub submit_ingest : IngestRequest → Desk → Submitted
  unfolding looked_up is_full get_by_url_branch
  submit_ingest req desk =
      if is_full cfg env.precheck
      then (err queue_full, desk)
      else looked_up req desk (get_by_url_branch env.url_ok req.repo_url req.branch desk.repos)

  -- The reply of Submit to a task on a repository that exists.
  abbrev pub enqueued : String → Desk → Result Error (Unit {0}) × World → Submitted
  enqueued repo_id desk (err e, world) = (err e, record desk { world = world })
  enqueued repo_id desk (ok _, world) = (ok (env.task_id, repo_id), record desk { world = world })

  -- The lock of another refresh is a conflict of the state.
  unfoldable pub refresh_error : Submitted → Submitted
  refresh_error (err repo_already_exists, desk) =
      (err (api_error code_invalid_task_state "refresh already in progress"), desk)
  refresh_error (err e, desk) = (err e, desk)
  refresh_error (ok ids, desk) = (ok ids, desk)

  unfoldable pub submit_on : TaskType → String → String → Desk → Submitted
  unfolding submit
  submit_on type repo_id payload desk =
      enqueued repo_id desk
        (submit cfg env.submit (new_task env.task_id type repo_id payload env.now) desk.world)

  -- A repository that is ready and has no live task among the hundred newest.
  unfoldable pub on_ready :
      String → (Repo → Submitted) → String → Desk → Result Error Repo → Submitted
  unfolding is_idle list
  on_ready busy rest repo_id desk (err e) = (err e, desk)
  on_ready busy rest repo_id desk (ok r) =
      if not (str_eq r.state repo_state_ready)
      then (err (api_error code_invalid_task_state "repo is not ready"), desk)
      else if is_idle (list env.list_ok (tasks_of repo_id) desk.world.table)
      then rest r
      else (err (api_error code_invalid_task_state busy), desk)

  -- `payload_of` is the JSON text with the identifier, the address and the branch.
  unfoldable pub submit_refresh : (Repo → String) → String → Desk → Submitted
  unfolding on_ready submit_on refresh_error get_repo valid_repo_id
  submit_refresh payload_of repo_id desk =
      if valid_repo_id repo_id
      then on_ready "repo has running task"
          (λ r. refresh_error (submit_on refresh r.repo_id (payload_of r) desk)) repo_id desk
          (get_repo env.get_ok repo_id desk.repos)
      else (err (api_error code_invalid_param "invalid repo_id format"), desk)

  unfoldable pub generate : String → Desk → Submitted
  unfolding on_ready submit_on get_repo valid_repo_id
  generate repo_id desk =
      if valid_repo_id repo_id
      then on_ready "wiki 正在生成中，请等待完成" (λ r. submit_on wiki r.repo_id "" desk) repo_id desk
          (get_repo env.get_ok repo_id desk.repos)
      else (err (api_error code_invalid_param "invalid repo_id format"), desk)
