-- ===== src/Service/Submitting/Admission.antt =====
-- When a refresh or a wiki is accepted (deepwiki/internal/service/ingest_service.go, wiki_service.go).
use godeepwiki.Common.{
  ℕ, ◌≡◌, refl, true, false, String, List, [], ◌∷◌, some, Bool-cases, inl, inr, str_eq, eq_iff, All,
  Result, ok, err,
}
use godeepwiki.Model.Task.{Task, TaskType, refresh, wiki, pending, is_terminal}
use godeepwiki.Model.Repo.{Repo, repo_state_ready}
use godeepwiki.Model.Errors.{Error, repo_already_exists}
use godeepwiki.Store.Table.{state_of}
use godeepwiki.Store.Ops.{list}
use godeepwiki.Store.Chunks.{valid_repo_id}
use godeepwiki.Store.Repos.{get_repo}
use godeepwiki.Manager.State.{World, Config}
use godeepwiki.Manager.Submit.{submit}
use godeepwiki.Manager.Submit.Storing.{submit-Stored}
use godeepwiki.Service.Desk.{Desk, new_task, tasks_of, is_idle, all_terminal}
use godeepwiki.Service.Submitting.{
  IngestRequest, RequestEnv, Submitted, enqueued, refresh_error, submit_on, on_ready,
  submit_refresh, generate,
}

-- No task of the answer is alive.
abbrev pub IsQuiet : Result Error (List Task × ℕ) → Type 0
IsQuiet (err e) = Unit {0}
IsQuiet (ok (ts, n)) = All (λ t. is_terminal t.state ≡ true) ts

all_terminal-All :
    (ts : List Task) → all_terminal ts ≡ true → All (λ t. is_terminal t.state ≡ true) ts
all_terminal-All [] h = tt
all_terminal-All (t ∷ ts) h = elim (Bool-cases (is_terminal t.state)) [
  | inl done ↦ (done, all_terminal-All ts (let rest = rw done at h in rest))
  | inr live ↦ absurd (let no = rw live at h in cc)
]

is_idle-IsQuiet : (answer : Result Error (List Task × ℕ)) → is_idle answer ≡ true → IsQuiet answer
unfolding is_idle
is_idle-IsQuiet (err e) h = tt
is_idle-IsQuiet (ok (ts, n)) h = all_terminal-All ts h

module _ (encode : IngestRequest → String) (cfg : Config) (env : RequestEnv)
    (named : str_eq env.task_id "" ≡ false) where
  -- An accepted request: the repository is there and ready, none of its newest hundred tasks is
  -- alive unless they could not be read, and the task is stored as pending. In any case the rows of
  -- the repositories are kept.
  abbrev pub IsAdmitted : String → Desk → Submitted → Type 0
  IsAdmitted repo_id desk (err e, desk') = desk'.repos ≡ desk.repos
  IsAdmitted repo_id desk (ok (task_id, id), desk') =
      ((r : Repo) × (get_repo env.get_ok repo_id desk.repos ≡ ok r) × (r.state ≡ repo_state_ready))
      × IsQuiet (list env.list_ok (tasks_of repo_id) desk.world.table)
      × (state_of task_id desk'.world.table ≡ some pending)
      × (desk'.repos ≡ desk.repos)

  -- What the rest of a request is asked for, when the repository is ready and idle.
  abbrev IsQueued : Desk → Submitted → Type 0
  IsQueued desk (err e, desk') = desk'.repos ≡ desk.repos
  IsQueued desk (ok (task_id, id), desk') =
      (state_of task_id desk'.world.table ≡ some pending) × (desk'.repos ≡ desk.repos)

  enqueued-IsQueued :
      (repo_id : String) (desk : Desk) (reply : Result Error (Unit {0}) × World)
      → (reply.0 ≡ ok tt → state_of env.task_id reply.1.table ≡ some pending)
      → IsQueued desk (enqueued encode cfg env repo_id desk reply)
  enqueued-IsQueued repo_id desk (err e, w) stored = refl
  enqueued-IsQueued repo_id desk (ok tt, w) stored = (stored refl, refl)

  submit_on-IsQueued :
      (type : TaskType) (repo_id payload : String) (desk : Desk)
      → IsQueued desk (submit_on encode cfg env type repo_id payload desk)
  unfolding submit_on
  submit_on-IsQueued type repo_id payload desk =
      let t = new_task env.task_id type repo_id payload env.now in
      enqueued-IsQueued repo_id desk (submit cfg env.submit t desk.world)
        (submit-Stored cfg env.submit t desk.world named)

  refresh_error-IsQueued :
      (desk : Desk) (s : Submitted)
      → IsQueued desk s
      → IsQueued desk (refresh_error encode cfg env s)
  unfolding refresh_error
  refresh_error-IsQueued desk (err repo_already_exists, d) q = q
  refresh_error-IsQueued desk (err e, d) q = q
  refresh_error-IsQueued desk (ok ids, d) q = q

  queued-IsAdmitted :
      (repo_id : String) (desk : Desk) (r : Repo) (s : Submitted)
      → get_repo env.get_ok repo_id desk.repos ≡ ok r
      → r.state ≡ repo_state_ready
      → IsQuiet (list env.list_ok (tasks_of repo_id) desk.world.table)
      → IsQueued desk s
      → IsAdmitted repo_id desk s
  queued-IsAdmitted repo_id desk r (err e, d) got ready quiet q = q
  queued-IsAdmitted repo_id desk r (ok ids, d) got ready quiet q =
      ((r, got, ready), quiet, q.0, q.1)

  on_ready-IsAdmitted :
      (busy : String) (rest : Repo → Submitted) (repo_id : String) (desk : Desk)
      (found : Result Error Repo)
      → get_repo env.get_ok repo_id desk.repos ≡ found
      → ((r : Repo) → IsQueued desk (rest r))
      → IsAdmitted repo_id desk (on_ready encode cfg env busy rest repo_id desk found)
  unfolding on_ready
  on_ready-IsAdmitted busy rest repo_id desk (err e) got queued = refl
  on_ready-IsAdmitted busy rest repo_id desk (ok r) got queued =
      let answer = list env.list_ok (tasks_of repo_id) desk.world.table in
      elim (Bool-cases (str_eq r.state repo_state_ready)) [
        | inr other ↦ rw other refl
        | inl ready ↦ elim (Bool-cases (is_idle answer)) [
          | inr live ↦ rw (ready, live) refl
          | inl idle ↦
              rw (ready, idle)
                (queued-IsAdmitted repo_id desk r (rest r) got
                  ((eq_iff r.state repo_state_ready).0 ready) (is_idle-IsQuiet answer idle)
                  (queued r))
        ]
      ]

  -- SubmitRefresh accepts a request only for a repository that is there and ready and has no live
  -- task among its newest hundred, unless the tasks could not be read; then the task is stored as
  -- pending. Whatever it answers, the rows of the repositories are kept.
  pub submit_refresh-IsAdmitted :
      (payload_of : Repo → String) (repo_id : String) (desk : Desk)
      → IsAdmitted repo_id desk (submit_refresh encode cfg env payload_of repo_id desk)
  unfolding submit_refresh
  submit_refresh-IsAdmitted payload_of repo_id desk = elim (Bool-cases (valid_repo_id repo_id)) [
    | inr bad ↦ rw bad refl
    | inl good ↦ rw good (
        on_ready-IsAdmitted "repo has running task"
          (λ r.
            refresh_error encode cfg env
              (submit_on encode cfg env refresh r.repo_id (payload_of r) desk))
          repo_id desk (get_repo env.get_ok repo_id desk.repos) refl
          (λ r.
            refresh_error-IsQueued desk
              (submit_on encode cfg env refresh r.repo_id (payload_of r) desk)
              (submit_on-IsQueued refresh r.repo_id (payload_of r) desk)))
  ]

  -- Generate accepts a wiki only for a repository that is there and ready and has no live task among
  -- its newest hundred, unless the tasks could not be read.
  pub generate-IsAdmitted :
      (repo_id : String) (desk : Desk)
      → IsAdmitted repo_id desk (generate encode cfg env repo_id desk)
  unfolding generate
  generate-IsAdmitted repo_id desk = elim (Bool-cases (valid_repo_id repo_id)) [
    | inr bad ↦ rw bad refl
    | inl good ↦ rw good (
        on_ready-IsAdmitted "wiki 正在生成中，请等待完成"
          (λ r. submit_on encode cfg env wiki r.repo_id "" desk) repo_id desk
          (get_repo env.get_ok repo_id desk.repos) refl
          (λ r. submit_on-IsQueued wiki r.repo_id "" desk))
  ]
