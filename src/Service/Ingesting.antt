-- ===== src/Service/Ingesting.antt =====
-- IngestExecutor (deepwiki/internal/service/executors.go). `decode` is what the request payload of a task
-- holds, `workdir` the configured directory, and `cfg` the configured options.
pub mod Outcome
pub mod Renaming
use godeepwiki.Common.{
  ℕ, Bool, true, false, not, String, List, [], ◌∷◌, Option, none, some, str_eq, if◌then◌else◌,
  Result, ok, err,
}
use Prim.Native.String.{◌++◌}
use godeepwiki.Model.Task.{Task, TaskState}
use godeepwiki.Model.Repo.{Repo, repo_state_ready, repo_state_error}
use godeepwiki.Model.Chunk.{Chunk}
use godeepwiki.Model.Errors.{Error, wrapped, code_invalid_param, code_task_interrupted, message_of}
use godeepwiki.Store.Table.{Table}
use godeepwiki.Store.Repos.{Repos, get_repo, update_repo}
use godeepwiki.Ingest.Chunker.{IngestOptions}
use godeepwiki.Ingest.Pipeline.{
  Running, RunError, Ended, plain, stage_error, run_pipeline, PipelineEnv,
}
use godeepwiki.Ingest.Pipeline.Outcome.{report_to}
use godeepwiki.Ingest.Stages.{StageEnv, Work, ingest_stages, snapshot_stats, no_indexable_files}
use godeepwiki.Manager.Dispatch.{RunResult, done, failed_with}
use godeepwiki.Service.Site.{
  Site, ExecEnv, IngestOptionsDto, build_ingest_options, run_result, fail_task_with,
}

pub record IngestTaskPayload : Type 0 where
  pub auto_wiki : Bool
  pub options : Option IngestOptionsDto

-- errors.Is(err, ErrNoIndexableFiles)
unfoldable pub is_no_indexable : Error → Bool
is_no_indexable (wrapped s) = str_eq s "no indexable files after filtering"
is_no_indexable e = false

-- failTask with the code of an empty tree, or that of an interrupted task.
unfoldable pub fail_stage : ExecEnv → String → TaskState → Error → Table → Table
unfolding fail_task_with is_no_indexable
fail_stage env id stage e table =
    if is_no_indexable e
    then fail_task_with env id stage code_invalid_param
        "过滤后没有可索引文件，请调整 include_ext/exclude_dirs 后重试" table
    else fail_task_with env id stage code_task_interrupted (message_of code_task_interrupted) table

unfoldable pub mark_repo : ExecEnv → Result Error Repo → Repos → Repos
unfolding update_repo
mark_repo env (err e) repos = repos
mark_repo env (ok r) repos =
    (update_repo env.mark_update_ok env.now (record r { state = repo_state_error }) repos).1

unfoldable pub mark_repo_error : ExecEnv → String → Repos → Repos
unfolding mark_repo get_repo
mark_repo_error env id repos = mark_repo env (get_repo env.mark_get_ok id repos) repos

-- The site with what the pipeline left.
abbrev pub after_pipeline : Site → Running Table Work → Site
after_pipeline site r = record site {
  tasks = r.store;
  chunks = r.context.table;
  index = r.context.index;
  events = r.events;
}

module _ (decode : String → IngestTaskPayload) (workdir : String) (cfg : IngestOptions) where
  abbrev final_dir : Repo → String
  final_dir repo = workdir ++ ("/" ++ repo.repo_id)

  -- The repository as an ingest leaves it.
  unfoldable pub ready_repo : Repo → Work → Repo
  unfolding snapshot_stats
  ready_repo repo w = record repo {
    state = repo_state_ready;
    local_path = final_dir repo;
    stats = snapshot_stats w;
  }

  -- After the pipeline: the rename of the directory, the repository, and the wiki if it was asked.
  -- An UPDATE of the repository that fails is only logged.
  unfoldable pub publish_repo : ExecEnv → Task → Repo → Work → Site → RunResult × Site
  unfolding ready_repo update_repo
  publish_repo env t repo w site =
      let repos = (update_repo env.repo_update_ok env.now (ready_repo repo w) site.repos).1 in
      let asked =
        if (decode t.request_payload).auto_wiki
        then repo.repo_id ∷ site.wiki_asked
        else site.wiki_asked in
      if not env.parent_ok
      then (failed_with (wrapped "mkdir"), site)
      else if not env.rename_ok
      then (failed_with (wrapped "rename workdir"), site)
      else (done, record site { repos = repos; wiki_asked = asked })

  unfoldable pub ingest_ended : ExecEnv → Task → Repo → Site → Ended Table Work → RunResult × Site
  unfolding publish_repo fail_stage mark_repo_error run_result
  ingest_ended env t repo site (ok _, r) = publish_repo env t repo r.context (after_pipeline site r)
  ingest_ended env t repo site (err (plain e), r) = (run_result e, after_pipeline site r)
  ingest_ended env t repo site (err (stage_error stage e), r) = (
    done,
    record (after_pipeline site r) {
      tasks = fail_stage env t.task_id stage e r.store;
      repos = mark_repo_error env repo.repo_id site.repos;
    },
  )

  abbrev pub ingest_start : ExecEnv → Task → Repo → Site → Running Table Work
  ingest_start env t repo site = record {
    store = site.tasks;
    context = record {
      repo_id = repo.repo_id;
      commit_hash = repo.commit_hash;
      options = build_ingest_options cfg (decode t.request_payload).options;
      files = [];
      chunks = [];
      table = site.chunks;
      index = site.index;
    };
    events = site.events;
  }

  unfoldable pub ingest_found : ExecEnv → Task → Site → Result Error Repo → RunResult × Site
  unfolding ingest_ended run_pipeline run_result
  ingest_found env t site (err e) = (run_result e, site)
  ingest_found env t site (ok repo) =
      if not env.mkdir_ok
      then (failed_with (wrapped "mkdir"), site)
      else ingest_ended env t repo site (
          run_pipeline env.pipeline (report_to env.reads_ok env.writes_ok env.now t.task_id)
            snapshot_stats (ingest_stages env.stage) (ingest_start env t repo site))

  unfoldable pub ingest_execute : ExecEnv → Task → Site → RunResult × Site
  unfolding ingest_found get_repo
  ingest_execute env t site =
      ingest_found env t site (get_repo env.repo_get_ok t.repo_id site.repos)
