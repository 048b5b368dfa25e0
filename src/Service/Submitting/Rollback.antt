-- ===== src/Service/Submitting/Rollback.antt =====
-- SubmitIngest (deepwiki/internal/service/ingest_service.go) leaves all of a new repository or nothing.
use godeepwiki.Common.{
  ℕ, ◌≡◌, refl, ap, subst, sym, ◌∙◌, Bool, true, false, not, String, [], ◌∷◌, ◌++◌, none, some,
  is_some, Bool-cases, Option-cases, inl, inr, str_eq, eq_refl, select, arith, Result, ok, err,
}
use godeepwiki.Model.Task.{ingest, pending}
use godeepwiki.Model.Repo.{Repo}
use godeepwiki.Model.Errors.{Error, repo_not_found}
use godeepwiki.Store.Table.{state_of}
use godeepwiki.Store.Chunks.{valid_id}
use godeepwiki.Store.Repos.{
  Repos, has_repo_id, at_url, find_repo, create_repo, delete_repo, get_by_url_branch,
}
use godeepwiki.Manager.State.{World, Config}
use godeepwiki.Manager.Submit.{submit}
use godeepwiki.Manager.Submit.Storing.{submit-Stored}
use godeepwiki.Service.Desk.{Desk, cascaded, delete_cascade, new_task}
use godeepwiki.Service.Submitting.{
  IngestRequest, RequestEnv, Submitted, new_repo, submitted, repo_created, looked_up, submit_ingest,
  is_full,
}

-- The row of the new repository goes, and every other row stays.
select-added :
    (id : String) (x : Repo) (repos : Repos)
    → find_repo (has_repo_id id) repos ≡ none
    → has_repo_id id x ≡ true
    → select (λ r. not (has_repo_id id r)) (repos ++ x ∷ []) ≡ repos
unfolding find_repo
select-added id x [] missing here = rw here refl
select-added id x (r ∷ rs) missing here = ground (arith, select-added id x rs)

create_repo-added :
    (db_ok : Bool) (now : ℕ) (r : Repo) (repos : Repos)
    → (create_repo db_ok now r repos).0 ≡ ok tt
    → (valid_id r.repo_id ≡ true)
      × (find_repo (has_repo_id r.repo_id) repos ≡ none)
      × ((create_repo db_ok now r repos).1
          ≡ repos ++ (record r { created_at = now; updated_at = now }) ∷ [])
unfolding create_repo
create_repo-added db_ok now r repos h = elim (Bool-cases (valid_id r.repo_id)) [
  | inr bad ↦ absurd (let no = rw bad at h in cc)
  | inl good ↦ elim (Bool-cases db_ok) [
    | inr down ↦ absurd (let no = rw (good, down) at h in cc)
    | inl up ↦ elim (Option-cases (find_repo (has_repo_id r.repo_id) repos)) [
      | inr (x, found) ↦ absurd (let no = rw (good, up, found) at h in cc)
      | inl missing ↦ elim (Bool-cases (is_some (find_repo (at_url r.repo_url r.branch) repos))) [
        | inl taken ↦ absurd (let no = rw (good, up, missing, taken) at h in cc)
        | inr free ↦ (good, missing, rw (good, up, missing, free) refl)
      ]
    ]
  ]
]

create_repo-kept :
    (db_ok : Bool) (now : ℕ) (r : Repo) (repos : Repos) (e : Error)
    → (create_repo db_ok now r repos).0 ≡ err e
    → (create_repo db_ok now r repos).1 ≡ repos
unfolding create_repo
create_repo-kept db_ok now r repos e h = ground arith

delete_repo-added :
    (id : String) (x : Repo) (repos : Repos)
    → valid_id id ≡ true
    → find_repo (has_repo_id id) repos ≡ none
    → has_repo_id id x ≡ true
    → delete_repo true id (repos ++ x ∷ []) ≡ (ok tt, repos)
unfolding delete_repo
delete_repo-added id x repos good missing here =
    rw good (ap (λ rs. (ok tt, rs)) (select-added id x repos missing here))

cascaded-repos :
    (id : String) (desk : Desk) (reply : Result Error (Unit {0}) × Repos)
    → (cascaded id desk reply).1.repos ≡ reply.1
cascaded-repos id desk (err e, repos) = refl
cascaded-repos id desk (ok _, repos) = refl

module _ (encode : IngestRequest → String) (cfg : Config) (env : RequestEnv) where
  -- After an error the rows of the repositories are those from before; otherwise one row has come,
  -- in the state ingesting, and the task is stored as pending.
  abbrev pub IsAtomic : IngestRequest → Desk → Submitted → Type 0
  IsAtomic req desk (err e, desk') = desk'.repos ≡ desk.repos
  IsAtomic req desk (ok (task_id, repo_id), desk') =
      (desk'.repos ≡ desk.repos ++ new_repo encode cfg env req ∷ [])
      × (repo_id ≡ env.repo_id)
      × (state_of task_id desk'.world.table ≡ some pending)

  submitted-IsAtomic :
      (req : IngestRequest) (desk : Desk) (before : Repos) (reply : Result Error (Unit {0}) × World)
      → env.delete_ok ≡ true
      → valid_id env.repo_id ≡ true
      → find_repo (has_repo_id env.repo_id) before ≡ none
      → desk.repos ≡ before ++ new_repo encode cfg env req ∷ []
      → (reply.0 ≡ ok tt → state_of env.task_id reply.1.table ≡ some pending)
      → IsAtomic req
          (record desk { repos = before })
          (submitted encode cfg env env.task_id desk reply)
  unfolding submitted delete_cascade
  submitted-IsAtomic req desk before (ok _, world) deletes good missing added stored =
      (added, refl, stored refl)
  submitted-IsAtomic req desk before (err e, world) deletes good missing added stored =
      cascaded-repos env.repo_id (record desk { world = world })
        (delete_repo env.delete_ok env.repo_id desk.repos)
      ∙ subst (λ b. (delete_repo b env.repo_id desk.repos).1 ≡ before) (sym deletes)
          (subst (λ rs. (delete_repo true env.repo_id rs).1 ≡ before) (sym added)
            (ap (λ p. p.1)
              (delete_repo-added env.repo_id (new_repo encode cfg env req) before good missing
                (eq_refl env.repo_id))))

  repo_created-IsAtomic :
      (req : IngestRequest) (desk : Desk) (reply : Result Error (Unit {0}) × Repos)
      → env.delete_ok ≡ true
      → str_eq env.task_id "" ≡ false
      → (reply.0 ≡ ok tt
          → (valid_id env.repo_id ≡ true)
            × (find_repo (has_repo_id env.repo_id) desk.repos ≡ none)
            × (reply.1 ≡ desk.repos ++ new_repo encode cfg env req ∷ []))
      → ((e : Error) → reply.0 ≡ err e → reply.1 ≡ desk.repos)
      → IsAtomic req desk (repo_created encode cfg env req desk reply)
  unfolding repo_created
  repo_created-IsAtomic req desk (err e, repos) deletes named added kept = kept e refl
  repo_created-IsAtomic req desk (ok tt, repos) deletes named added kept =
      let (good, missing, new) = added refl in
      let t = new_task env.task_id ingest env.repo_id (encode req) env.now in
      submitted-IsAtomic req (record desk { repos = repos }) desk.repos
        (submit cfg env.submit t desk.world) deletes good missing new
        (submit-Stored cfg env.submit t desk.world named)

  looked_up-IsAtomic :
      (req : IngestRequest) (desk : Desk) (found : Result Error Repo)
      → env.delete_ok ≡ true
      → str_eq env.task_id "" ≡ false
      → IsAtomic req desk (looked_up encode cfg env req desk found)
  unfolding looked_up
  looked_up-IsAtomic req desk (ok r) deletes named = refl
  looked_up-IsAtomic req desk (err repo_not_found) deletes named =
      repo_created-IsAtomic req desk
        (create_repo env.create_ok env.now (new_repo encode cfg env req) desk.repos) deletes named
        (create_repo-added env.create_ok env.now (new_repo encode cfg env req) desk.repos)
        (create_repo-kept env.create_ok env.now (new_repo encode cfg env req) desk.repos)
  looked_up-IsAtomic req desk (err e) deletes named = refl

  -- If the DELETE that takes a new repository back works, SubmitIngest is all or nothing: when it
  -- returns an error, of whatever step, the rows of the repositories are those from before; when it
  -- returns none, one row has been added, in the state ingesting, and the task is stored as pending.
  pub submit_ingest-IsAtomic :
      (req : IngestRequest) (desk : Desk)
      → env.delete_ok ≡ true
      → str_eq env.task_id "" ≡ false
      → IsAtomic req desk (submit_ingest encode cfg env req desk)
  unfolding submit_ingest
  submit_ingest-IsAtomic req desk deletes named = elim (Bool-cases (is_full cfg env.precheck)) [
    | inl full ↦ rw full refl
    | inr room ↦ rw room (
        looked_up-IsAtomic req desk
          (get_by_url_branch env.url_ok req.repo_url req.branch desk.repos) deletes named)
  ]
