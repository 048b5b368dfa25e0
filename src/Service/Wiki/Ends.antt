-- ===== src/Service/Wiki/Ends.antt =====
-- How a step of WikiExecutor (deepwiki/internal/service/executors.go) can end an execution.

use godeepwiki.Common.{
  ℕ, ◌≡◌, refl, ap, subst, sym, Bool, true, false, ◌||◌, String, List, [], ◌∷◌, ◌++◌, some, ◌⊎◌,
  inr, eq_iff, if◌then◌else◌, arith, All, Result, ok, err,
}
use godeepwiki.Model.Task.{Task, TaskState, completed, failed, can_transition}
use godeepwiki.Model.Errors.{Error, context_canceled, code_task_interrupted, message_of}
use godeepwiki.Store.Table.{Table, state_of}
use godeepwiki.Store.Ops.{update_state}
use godeepwiki.Store.Landing.{update_state-lands, update_state-goes}
use godeepwiki.Store.Chunks.{is_among}
use godeepwiki.Store.Wikis.{WikiTocItem, WikiPage, Wiki, page_slugs, find_wiki, stamp_pages}
use godeepwiki.Manager.Dispatch.{done, failed_with, canceled, panicked, deadline_exceeded}
use godeepwiki.Service.Site.{fail_patch, run_result}
use godeepwiki.Service.Wiki.{
  WikiEnv, WikiSite, Ran, fail_wiki, percent_patch, updated, update_to, event_after,
}

-- Every item of the table of contents has a page.
abbrev pub IsComplete : List WikiTocItem → List WikiPage → Type 0
IsComplete toc pages = All (λ item. is_among item.slug (page_slugs pages) ≡ true) toc

-- An execution that returns no error: the task is completed and the repository has a wiki with a
-- page for each item of its table of contents, or the task is failed.
abbrev pub IsWikiOutcome : String → String → Ran → Type 0
IsWikiOutcome id repo_id (done, site) =
    ((state_of id site.tasks ≡ some completed)
      × ((w : Wiki) × (find_wiki repo_id site.wikis ≡ some w) × IsComplete w.toc w.pages))
    ⊎ (state_of id site.tasks ≡ some failed)
IsWikiOutcome id repo_id (panicked, site) = ⊥
IsWikiOutcome id repo_id (canceled, site) = Unit {0}
IsWikiOutcome id repo_id (deadline_exceeded, site) = Unit {0}
IsWikiOutcome id repo_id (failed_with e, site) = Unit {0}

pub is_among-append :
    (p : String) (xs : List WikiPage) (ys : List WikiPage)
    → is_among p (page_slugs (xs ++ ys))
      ≡ (is_among p (page_slugs xs) || is_among p (page_slugs ys))
unfolding is_among
is_among-append p [] ys = refl
is_among-append p (x ∷ xs) ys = ground (arith, is_among-append p xs ys)

-- The new page has the item's slug, and the old pages keep theirs.
pub IsComplete-page :
    (covered : List WikiTocItem) (pages : List WikiPage) (p : WikiPage)
    → IsComplete covered pages
    → IsComplete covered (pages ++ p ∷ [])
IsComplete-page [] pages p c = tt
IsComplete-page (item ∷ covered) pages p c =
    (ground (arith, is_among-append item.slug pages (p ∷ [])), IsComplete-page covered pages p c.1)

pub page_among :
    (item : WikiTocItem) (pages : List WikiPage) (p : WikiPage)
    → p.slug ≡ item.slug
    → is_among item.slug (page_slugs (pages ++ p ∷ [])) ≡ true
unfolding is_among
page_among item pages p same =
    ground (arith, is_among-append item.slug pages (p ∷ []), eq_iff p.slug item.slug)

pub stamped_slugs :
    (now : ℕ) (pages : List WikiPage) → page_slugs (stamp_pages now pages) ≡ page_slugs pages
stamped_slugs now [] = refl
stamped_slugs now (p ∷ ps) = ap (◌∷◌ p.slug) (stamped_slugs now ps)

pub if_either :
    {A : Type 0} (P : A → Type 0) (b : Bool) {x : A} {y : A} → P x → P y → P (if b then x else y)
if_either P true px py = px
if_either P false px py = py

pub run_result-outcome :
    (e : Error) (id repo_id : String) (site : WikiSite)
    → IsWikiOutcome id repo_id (run_result e, site)
unfolding run_result
run_result-outcome context_canceled id repo_id site = tt
run_result-outcome e id repo_id site = tt

module _ (env : WikiEnv) (t : Task) (fails : env.fail_ok ≡ true) (repo_id : String) where
  abbrev pub Ends : Ran → Type 0
  Ends = IsWikiOutcome t.task_id repo_id

  pub fail_wiki-Ends :
      (stage : TaskState) (site : WikiSite)
      → state_of t.task_id site.tasks ≡ some stage
      → can_transition stage failed ≡ true
      → Ends (fail_wiki env t stage site)
  unfolding fail_wiki
  fail_wiki-Ends stage site s legal = inr (
      subst
        (λ b.
          state_of t.task_id
            (update_state b b env.now t.task_id
              (fail_patch env.now code_task_interrupted (message_of code_task_interrupted) stage)
              site.tasks).1
          ≡ some failed)
        (sym fails)
        (update_state-lands true true env.now t.task_id failed
          (fail_patch env.now code_task_interrupted (message_of code_task_interrupted) stage)
          site.tasks refl
          (update_state-goes env.now t.task_id stage failed
            (fail_patch env.now code_task_interrupted (message_of code_task_interrupted) stage)
            site.tasks s refl legal (λ h. refl))))

  pub updated-Ends :
      (state : TaskState) (percent : ℕ) (rest : WikiSite → Ran) (site : WikiSite)
      (reply : Result Error (Unit {0}) × Table)
      → (reply.0 ≡ ok tt → state_of t.task_id reply.1 ≡ some state)
      → ((s : WikiSite)
          → state_of t.task_id s.tasks ≡ some state
          → s.wikis ≡ site.wikis
          → Ends (rest s))
      → Ends (updated env t state percent rest site reply)
  unfolding updated
  updated-Ends state percent rest site (err e, tasks) lands ih =
      run_result-outcome e t.task_id repo_id (record site { tasks = tasks })
  updated-Ends state percent rest site (ok _, tasks) lands ih =
      ih (record site { tasks = tasks; events = event_after env t state percent site.events })
        (lands refl) refl

  pub update_to-Ends :
      (db_ok : Bool) (state : TaskState) (percent : ℕ) (rest : WikiSite → Ran) (site : WikiSite)
      → ((s : WikiSite)
          → state_of t.task_id s.tasks ≡ some state
          → s.wikis ≡ site.wikis
          → Ends (rest s))
      → Ends (update_to env t db_ok state percent rest site)
  unfolding update_to
  update_to-Ends db_ok state percent rest site ih =
      updated-Ends state percent rest site
        (update_state db_ok db_ok env.now t.task_id (percent_patch env t state percent) site.tasks)
        (update_state-lands db_ok db_ok env.now t.task_id state (percent_patch env t state percent)
          site.tasks refl)
        ih
