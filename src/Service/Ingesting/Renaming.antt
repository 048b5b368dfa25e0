-- ===== src/Service/Ingesting/Renaming.antt =====
-- A rename that fails after the pipeline (deepwiki/internal/service/executors.go).
use godeepwiki.Common.{◌≡◌, refl, true, false, String, some, ok, err}
use godeepwiki.Model.Task.{Task, completed}
use godeepwiki.Model.Repo.{Repo}
use godeepwiki.Model.Errors.{wrapped}
use godeepwiki.Store.Table.{Table, state_of}
use godeepwiki.Store.Repos.{get_repo}
use godeepwiki.Ingest.Chunker.{IngestOptions}
use godeepwiki.Ingest.Pipeline.{run_pipeline, Ended}
use godeepwiki.Ingest.Pipeline.Outcome.{report_to, IsSettledAt, run_stages-IsSettledAt}
use godeepwiki.Ingest.Stages.{Work, ingest_stages, snapshot_stats}
use godeepwiki.Manager.Dispatch.{RunResult, failed_with}
use godeepwiki.Service.Site.{Site, ExecEnv}
use godeepwiki.Service.Ingesting.{
  IngestTaskPayload, publish_repo, ingest_ended, ingest_found, ingest_execute, ingest_start,
}

-- Nothing but the rename goes wrong: the error goes to the manager, the task is completed, and the
-- repository's row is as it was before.
abbrev pub IsHalfDone : String → Site → RunResult × Site → Type 0
IsHalfDone id before (how, site) =
    (how ≡ failed_with (wrapped "rename workdir"))
    × (state_of id site.tasks ≡ some completed)
    × (site.repos ≡ before.repos)

module _ (decode : String → IngestTaskPayload) (workdir : String) (cfg : IngestOptions) where
  ended_lem :
      (env : ExecEnv) (t : Task) (repo : Repo) (site : Site) (ended : Ended Table Work)
      → env.parent_ok ≡ true
      → env.rename_ok ≡ false
      → ended.0 ≡ ok tt
      → IsSettledAt t.task_id (λ s. Unit {0}) ended
      → IsHalfDone t.task_id site (ingest_ended decode workdir cfg env t repo site ended)
  unfolding ingest_ended publish_repo
  ended_lem env t repo site (ok _, r) dir stays good s = rw (dir, stays) (refl, s, refl)
  ended_lem env t repo site (err e, r) dir stays good s = absurd (cc)

  -- The repository is found and its directories can be made, and every stage succeeds and so does
  -- the report of the end, but the rename of the directory fails: the executor returns that error,
  -- the task is completed, and the rows of the repositories are what they were.
  pub ingest_execute-IsHalfDone :
      (env : ExecEnv) (t : Task) (repo : Repo) (site : Site)
      → get_repo env.repo_get_ok t.repo_id site.repos ≡ ok repo
      → env.mkdir_ok ≡ true
      → env.parent_ok ≡ true
      → env.rename_ok ≡ false
      → (run_pipeline env.pipeline
          (report_to env.reads_ok env.writes_ok env.now t.task_id)
          snapshot_stats
          (ingest_stages env.stage)
          (ingest_start decode workdir cfg env t repo site)).0
        ≡ ok tt
      → IsHalfDone t.task_id site (ingest_execute decode workdir cfg env t site)
  unfolding ingest_execute ingest_found run_pipeline
  ingest_execute-IsHalfDone env t repo site got made dir stays good =
      rw (got, ingest_found)
        (rw made (
          ended_lem env t repo site _ dir stays good (
            run_stages-IsSettledAt env.pipeline env.reads_ok env.writes_ok env.now t.task_id
              snapshot_stats (λ s. Unit {0}) 0 (ingest_stages env.stage)
              (ingest_start decode workdir cfg env t repo site) (tt, (tt, (tt, (tt, (tt, tt))))))))
