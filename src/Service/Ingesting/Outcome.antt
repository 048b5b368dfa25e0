-- ===== src/Service/Ingesting/Outcome.antt =====
-- How an execution of IngestExecutor (deepwiki/internal/service/executors.go) leaves the task and its
-- repository.
use mathlib.Core.Option
use godeepwiki.Common.{
  ℕ, ◌≡◌, refl, ap, subst, sym, ◌∙◌, Bool, true, false, ◌⊎◌, inl, inr, String, Option, some,
  Option-cases, Bool-cases, Result, ok, err, All,
}
use godeepwiki.Model.Task.{Task, TaskState, completed, failed, can_transition}
use godeepwiki.Model.Repo.{Repo, repo_state_ready, repo_state_error}
use godeepwiki.Model.Errors.{Error, context_canceled}
use godeepwiki.Store.Table.{Table, state_of}
use godeepwiki.Store.Landing.{update_state-lands, update_state-goes}
use godeepwiki.Store.Chunks.{valid_id}
use godeepwiki.Store.Repos.{
  Repos, get_repo, found_repo, find_repo, has_repo_id, update_repo, find_repo-update_rows,
  find_repo-id,
}
use godeepwiki.Ingest.Chunker.{IngestOptions}
use godeepwiki.Ingest.Pipeline.{Ended, plain, stage_error, run_pipeline}
use godeepwiki.Ingest.Pipeline.Outcome.{IsSettledAt, run_stages-IsSettledAt, report_to}
use godeepwiki.Ingest.Stages.{Work, ingest_stages, snapshot_stats, StageEnv}
use godeepwiki.Manager.Dispatch.{
  RunResult, done, failed_with, canceled, panicked, deadline_exceeded,
}
use godeepwiki.Service.Site.{Site, ExecEnv, fail_patch, fail_task_with, run_result}
use godeepwiki.Service.Ingesting.{
  IngestTaskPayload, fail_stage, mark_repo, mark_repo_error, after_pipeline, publish_repo,
  ready_repo, ingest_ended, ingest_found, ingest_execute, ingest_start, is_no_indexable,
}

abbrev pub repo_state_of : String → Repos → Option String
repo_state_of id repos = Option.map (λ r. r.state) (find_repo (has_repo_id id) repos)

-- The UPDATEs that the executor makes outside the reports go through.
pub record Answers (env : ExecEnv) : Type 0 where
  pub fail_reads : env.fail_reads_ok ≡ true
  pub fail_writes : env.fail_writes_ok ≡ true
  pub mark_get : env.mark_get_ok ≡ true
  pub mark_update : env.mark_update_ok ≡ true
  pub repo_update : env.repo_update_ok ≡ true

abbrev MayFail : TaskState → Type 0
MayFail s = can_transition s failed ≡ true

fail_task_with-failed :
    (env : ExecEnv) (id : String) (stage : TaskState) (code : ℕ) (message : String) (table : Table)
    → Answers env
    → state_of id table ≡ some stage
    → MayFail stage
    → state_of id (fail_task_with env id stage code message table) ≡ some failed
unfolding fail_task_with
fail_task_with-failed env id stage code message table a s legal =
    rw (a.fail_reads, a.fail_writes)
      (update_state-lands true true env.now id failed (fail_patch env.now code message stage) table
        refl
        (update_state-goes env.now id stage failed (fail_patch env.now code message stage) table s
          refl legal (λ h. refl)))

fail_stage-failed :
    (env : ExecEnv) (id : String) (stage : TaskState) (e : Error) (table : Table)
    → Answers env
    → state_of id table ≡ some stage
    → MayFail stage
    → state_of id (fail_stage env id stage e table) ≡ some failed
unfolding fail_stage
fail_stage-failed env id stage e table a s legal = elim (Bool-cases (is_no_indexable e)) [
  | inl empty ↦ rw empty (fail_task_with-failed env id stage _ _ table a s legal)
  | inr other ↦ rw other (fail_task_with-failed env id stage _ _ table a s legal)
]

-- A repository that Get returned: its identifier is valid, and it has a row.
pub found_repo_lem :
    (db_ok : Bool) (id : String) (repos : Repos) (r : Repo)
    → get_repo db_ok id repos ≡ ok r
    → (valid_id id ≡ true) × (r.repo_id ≡ id) × (find_repo (has_repo_id id) repos ≡ some r)
unfolding get_repo found_repo
found_repo_lem db_ok id repos r h = elim (Bool-cases (valid_id id)) [
  | inr bad ↦ absurd (let no = rw bad at h in cc)
  | inl good ↦ elim (Bool-cases db_ok) [
    | inr down ↦ absurd (let no = rw (good, down) at h in cc)
    | inl up ↦ elim (Option-cases (find_repo (has_repo_id id) repos)) [
      | inl missing ↦ absurd (let no = rw (good, up, missing) at h in cc)
      | inr (x, found) ↦
          let same : x ≡ r = (let got = rw (good, up, found) at h in cc) in
          (
            good,
            ap (λ y. y.repo_id) (sym same) ∙ find_repo-id id repos x found,
            found ∙ ap some same,
          )
    ]
  ]
]

updated_self :
    (db_ok : Bool) (now : ℕ) (r : Repo) (old : Repo) (repos : Repos)
    → db_ok ≡ true
    → valid_id r.repo_id ≡ true
    → find_repo (has_repo_id r.repo_id) repos ≡ some old
    → repo_state_of r.repo_id (update_repo db_ok now r repos).1 ≡ some r.state
unfolding update_repo
updated_self db_ok now r old repos up valid found =
    rw (valid) (rw up (find_repo-update_rows now r repos old found))

updated_state :
    (db_ok : Bool) (now : ℕ) (id : String) (r old : Repo) (repos : Repos)
    → db_ok ≡ true
    → r.repo_id ≡ id
    → valid_id id ≡ true
    → find_repo (has_repo_id id) repos ≡ some old
    → repo_state_of id (update_repo db_ok now r repos).1 ≡ some r.state
updated_state db_ok now id r old repos up same valid found =
    subst (λ i. repo_state_of i (update_repo db_ok now r repos).1 ≡ some r.state) same
      (updated_self db_ok now r old repos up (subst (λ i. valid_id i ≡ true) (sym same) valid)
        (subst (λ i. find_repo (has_repo_id i) repos ≡ some old) (sym same) found))

mark_repo_error-error :
    (env : ExecEnv) (id : String) (repos : Repos) (r : Repo)
    → Answers env
    → get_repo true id repos ≡ ok r
    → repo_state_of id (mark_repo_error env id repos) ≡ some repo_state_error
unfolding mark_repo_error mark_repo
mark_repo_error-error env id repos r a got =
    let facts = found_repo_lem true id repos r got in
    let again = subst (λ b. get_repo b id repos ≡ ok r) (sym a.mark_get) got in
    subst (λ answer. repo_state_of id (mark_repo env answer repos) ≡ some repo_state_error)
      (sym again)
      (updated_state env.mark_update_ok env.now id (record r { state = repo_state_error }) r repos
        a.mark_update facts.1 facts.0 facts.2)

-- How an execution has ended: the task is completed and the repository ready, or the task failed
-- and the repository in error; or an error went to the manager.
abbrev pub IsIngestOutcome : String → String → RunResult × Site → Type 0
IsIngestOutcome id repo_id (done, site) =
    ((state_of id site.tasks ≡ some completed)
      × (repo_state_of repo_id site.repos ≡ some repo_state_ready))
    ⊎ ((state_of id site.tasks ≡ some failed)
        × (repo_state_of repo_id site.repos ≡ some repo_state_error))
IsIngestOutcome id repo_id (panicked, site) = ⊥
IsIngestOutcome id repo_id (canceled, site) = Unit {0}
IsIngestOutcome id repo_id (deadline_exceeded, site) = Unit {0}
IsIngestOutcome id repo_id (failed_with e, site) = Unit {0}

run_result-outcome :
    (e : Error) (id repo_id : String) (site : Site)
    → IsIngestOutcome id repo_id (run_result e, site)
unfolding run_result
run_result-outcome context_canceled id repo_id site = tt
run_result-outcome e id repo_id site = tt

ingest_stages-MayFail : (env : StageEnv) → All (λ st. MayFail st.name) (ingest_stages env)
unfolding can_transition
ingest_stages-MayFail env = (refl, (refl, (refl, (refl, (refl, tt)))))

get_repo-up :
    (db_ok : Bool) (id : String) (repos : Repos) (r : Repo)
    → get_repo db_ok id repos ≡ ok r
    → get_repo true id repos ≡ ok r
unfolding get_repo
get_repo-up true id repos r h = h
get_repo-up false id repos r h = elim (Bool-cases (valid_id id)) [
  | inl good ↦ absurd (let no = rw good at h in cc)
  | inr bad ↦ absurd (let no = rw bad at h in cc)
]

module _ (decode : String → IngestTaskPayload) (workdir : String) (cfg : IngestOptions) where
  publish_repo-outcome :
      (env : ExecEnv) (t : Task) (repo : Repo) (w : Work) (site : Site)
      → Answers env
      → get_repo true repo.repo_id site.repos ≡ ok repo
      → state_of t.task_id site.tasks ≡ some completed
      → IsIngestOutcome t.task_id repo.repo_id (publish_repo decode workdir cfg env t repo w site)
  unfolding publish_repo ready_repo
  publish_repo-outcome env t repo w site a got s = elim (Bool-cases env.parent_ok) [
    | inr no_dir ↦ rw no_dir tt
    | inl dir ↦ elim (Bool-cases env.rename_ok) [
      | inr stays ↦ rw (dir, stays) tt
      | inl moves ↦
          let facts = found_repo_lem true repo.repo_id site.repos repo got in
          let ready =
            updated_state env.repo_update_ok env.now repo.repo_id
              (ready_repo decode workdir cfg repo w) repo site.repos a.repo_update refl facts.0
              facts.2 in
          rw (dir, moves) (inl (s, ready))
    ]
  ]

  ingest_ended-outcome :
      (env : ExecEnv) (t : Task) (repo : Repo) (site : Site) (ended : Ended Table Work)
      → Answers env
      → get_repo true repo.repo_id site.repos ≡ ok repo
      → IsSettledAt t.task_id MayFail ended
      → IsIngestOutcome t.task_id repo.repo_id
          (ingest_ended decode workdir cfg env t repo site ended)
  unfolding ingest_ended
  ingest_ended-outcome env t repo site (ok _, r) a got s =
      publish_repo-outcome env t repo r.context (after_pipeline site r) a got s
  ingest_ended-outcome env t repo site (err (plain e), r) a got s =
      run_result-outcome e t.task_id repo.repo_id (after_pipeline site r)
  ingest_ended-outcome env t repo site (err (stage_error stage e), r) a got s = inr (
    fail_stage-failed env t.task_id stage e r.store a s.0 s.1,
    mark_repo_error-error env repo.repo_id site.repos repo a got,
  )

  ingest_found-outcome :
      (env : ExecEnv) (t : Task) (site : Site) (found : Result Error Repo)
      → Answers env
      → ((repo : Repo) → found ≡ ok repo → get_repo true t.repo_id site.repos ≡ ok repo)
      → IsIngestOutcome t.task_id t.repo_id (ingest_found decode workdir cfg env t site found)
  unfolding ingest_found run_pipeline
  ingest_found-outcome env t site (err e) a got = run_result-outcome e t.task_id t.repo_id site
  ingest_found-outcome env t site (ok repo) a got = elim (Bool-cases env.mkdir_ok) [
    | inr no_dir ↦ rw no_dir tt
    | inl dir ↦
        let here = got repo refl in
        let same = (found_repo_lem true t.repo_id site.repos repo here).1 in
        rw dir (
          subst
            (λ i. IsIngestOutcome t.task_id i (
              ingest_ended decode workdir cfg env t repo site (
                run_pipeline env.pipeline (report_to env.reads_ok env.writes_ok env.now t.task_id)
                  snapshot_stats (ingest_stages env.stage)
                  (ingest_start decode workdir cfg env t repo site))))
            same
            (ingest_ended-outcome env t repo site _ a
              (subst (λ i. get_repo true i site.repos ≡ ok repo) (sym same) here)
              (run_stages-IsSettledAt env.pipeline env.reads_ok env.writes_ok env.now t.task_id
                snapshot_stats MayFail 0 (ingest_stages env.stage)
                (ingest_start decode workdir cfg env t repo site)
                (ingest_stages-MayFail env.stage))))
  ]

  -- Whatever git, the embedder, OpenSearch and the reports do: if an execution of an ingest returns
  -- without an error, then the task is completed and its repository ready, or the task is failed
  -- and its repository in error, provided that the database carries out the updates that end it.
  pub ingest_execute-outcome :
      (env : ExecEnv) (t : Task) (site : Site)
      → Answers env
      → IsIngestOutcome t.task_id t.repo_id (ingest_execute decode workdir cfg env t site)
  unfolding ingest_execute
  ingest_execute-outcome env t site a =
      ingest_found-outcome env t site (get_repo env.repo_get_ok t.repo_id site.repos) a
        (λ repo. get_repo-up env.repo_get_ok t.repo_id site.repos repo)
