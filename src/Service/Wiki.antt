-- ===== src/Service/Wiki.antt =====
-- WikiExecutor (deepwiki/internal/service/executors.go). The answers of the retriever and of the language
-- model are parts of the environment: the table of contents as generateTOC returns it, and the text of each
-- page. The heartbeat that runs beside, an UpdateState with an empty patch, only sets `updated_at`.
pub mod Ends
pub mod Pages
use godeepwiki.Common.{
  ℕ, ◌+◌, ◌*◌, ◌/◌, Bool, true, false, not, ◌&&◌, String, List, [], ◌∷◌, ◌++◌, Option, none, some,
  str_eq, if◌then◌else◌, ltb, length, Result, ok, err,
}
use godeepwiki.Model.Task.{
  Task, TaskState, TaskPatch, Progress, Stats, empty_patch, outlining, generating, completed,
}
use godeepwiki.Model.Repo.{Repo}
use godeepwiki.Model.Errors.{Error, wrapped, code_task_interrupted, message_of}
use godeepwiki.Store.Table.{Table}
use godeepwiki.Store.Ops.{update_state}
use godeepwiki.Store.Chunks.{is_among}
use godeepwiki.Store.Repos.{Repos, get_repo}
use godeepwiki.Store.Wikis.{WikiTocItem, WikiPage, Wiki, Wikis, page_slugs, save_wiki, get_wiki}
use godeepwiki.Ingest.Pipeline.{out_of_100}
use godeepwiki.Manager.Dispatch.{RunResult, done, failed_with}
use godeepwiki.Service.Site.{fail_patch, run_result}

pub record WikiSite : Type 0 where
  pub tasks : Table
  pub repos : Repos
  pub wikis : Wikis
  pub events : List (TaskState × ℕ)

-- `db_ok i` is about the i-th report: outlining, generating, then one for each page that is there, and
-- the end is `end_ok`. `cancelled n` is the state of the context when n pages are there.
pub record WikiEnv : Type 0 where
  pub now : ℕ
  pub repo_get_ok : Bool
  pub has_retriever : Bool
  pub db_ok : ℕ → Bool
  pub bus_ok : Bool
  pub search_ok : Bool
  pub toc : Result Error (List WikiTocItem)
  pub wiki_get_ok : Bool
  pub cancelled : ℕ → Option Error
  pub page : WikiTocItem → Result Error String
  pub save_ok : ℕ → Bool
  pub final_save_ok : Bool
  pub end_ok : Bool
  pub fail_ok : Bool

abbrev pub Ran : Type 0
Ran = RunResult × WikiSite

unfoldable pub same_toc_slugs : List WikiTocItem → List WikiTocItem → Bool
same_toc_slugs [] [] = true
same_toc_slugs (x ∷ xs) (y ∷ ys) = str_eq x.slug y.slug && same_toc_slugs xs ys
same_toc_slugs xs ys = false

unfoldable pub default_toc : List WikiTocItem
default_toc =
    record { slug = "overview"; title = "项目概览"; parent_slug = ""; sort_order = 1 }
    ∷ record { slug = "architecture"; title = "架构设计"; parent_slug = ""; sort_order = 2 }
    ∷ record { slug = "getting-started"; title = "快速开始"; parent_slug = ""; sort_order = 3 }
    ∷ []

-- A wiki with pages missing, of the same table of contents: its pages are kept.
unfoldable pub resumed_pages : Result Error Wiki → List WikiTocItem → List WikiPage
unfolding same_toc_slugs
resumed_pages (err e) toc = []
resumed_pages (ok w) toc =
    if ltb (length w.pages) (length w.toc) && same_toc_slugs w.toc toc then w.pages else []

module _ (env : WikiEnv) (t : Task) where
  unfoldable pub fail_wiki : TaskState → WikiSite → Ran
  unfolding update_state
  fail_wiki stage site = (
    done,
    record site {
      tasks =
          (update_state env.fail_ok env.fail_ok env.now t.task_id
            (fail_patch env.now code_task_interrupted (message_of code_task_interrupted) stage)
            site.tasks).1;
    },
  )

  abbrev pub percent_patch : TaskState → ℕ → TaskPatch
  percent_patch state percent = record empty_patch {
    state = some state;
    progress = some (out_of_100 percent);
  }

  unfoldable pub event_after : TaskState → ℕ → List (TaskState × ℕ) → List (TaskState × ℕ)
  event_after state percent events = if env.bus_ok then events ++ (state, percent) ∷ [] else events

  -- An UPDATE by its reply: an error ends the execution, else the event is published.
  unfoldable pub updated :
      TaskState → ℕ → (WikiSite → Ran) → WikiSite → Result Error (Unit {0}) × Table → Ran
  unfolding run_result event_after
  updated state percent rest site (err e, tasks) = (run_result e, record site { tasks = tasks })
  updated state percent rest site (ok _, tasks) =
      rest (record site { tasks = tasks; events = event_after state percent site.events })

  unfoldable pub update_to : Bool → TaskState → ℕ → (WikiSite → Ran) → WikiSite → Ran
  unfolding updated update_state
  update_to db_ok state percent rest site =
      updated state percent rest site
        (update_state db_ok db_ok env.now t.task_id (percent_patch state percent) site.tasks)

  module _ (repo_id : String) (toc : List WikiTocItem) where
    abbrev pub wiki_of : List WikiPage → Wiki
    wiki_of pages = record {
      repo_id = repo_id;
      toc = toc;
      pages = pages;
      task_id = t.task_id;
      generated_at = env.now;
    }

    -- saveCheckpoint: an error is only logged.
    unfoldable pub save_checkpoint : List WikiPage → WikiSite → WikiSite
    unfolding save_wiki
    save_checkpoint pages site = record site {
      wikis = (save_wiki (env.save_ok (length pages)) env.now (wiki_of pages) site.wikis).1;
    }

    abbrev pub page_of : WikiTocItem → String → WikiPage
    page_of item content = record {
      slug = item.slug;
      title = item.title;
      content_md = content;
      sort_order = item.sort_order;
      updated_at = env.now;
    }

    -- The text of a page, or the error of the model; `rest` goes on with the next item.
    unfoldable pub page_made :
        WikiTocItem
        → (List WikiPage → WikiSite → Ran)
        → List WikiPage
        → WikiSite
        → Result Error String
        → Ran
    unfolding save_checkpoint fail_wiki update_to
    page_made item rest pages site (err e) = fail_wiki generating (save_checkpoint pages site)
    page_made item rest pages site (ok content) =
        let pages' = pages ++ page_of item content ∷ [] in
        update_to (env.db_ok (length pages')) generating (15 + 80 * length pages' / length toc)
          (rest pages') (save_checkpoint pages' site)

    unfoldable pub page_checked :
        WikiTocItem
        → (List WikiPage → WikiSite → Ran)
        → List WikiPage
        → WikiSite
        → Option Error
        → Ran
    unfolding page_made run_result
    page_checked item rest pages site (some e) = (run_result e, site)
    page_checked item rest pages site none = page_made item rest pages site (env.page item)

    abbrev pub end_patch : TaskPatch
    end_patch = record empty_patch {
      state = some completed;
      progress = some (out_of_100 100);
      finished_at = some env.now;
    }

    -- The last save and the end of the task.
    unfoldable pub wiki_saved : WikiSite → Result Error (Unit {0}) × Wikis → Ran
    unfolding updated update_state run_result
    wiki_saved site (err e, wikis) = (run_result e, record site { wikis = wikis })
    wiki_saved site (ok _, wikis) =
        updated completed 100 (λ s. (done, s)) (record site { wikis = wikis })
          (update_state env.end_ok env.end_ok env.now t.task_id end_patch site.tasks)

    -- The loop over the table of contents; pages that are there already are skipped.
    unfoldable pub write_pages : List String → List WikiTocItem → List WikiPage → WikiSite → Ran
    unfolding page_checked wiki_saved save_wiki is_among
    write_pages skip [] pages site =
        wiki_saved site (save_wiki env.final_save_ok env.now (wiki_of pages) site.wikis)
    write_pages skip (item ∷ items) pages site =
        let rest = write_pages skip items in
        if is_among item.slug skip
        then rest pages site
        else page_checked item rest pages site (env.cancelled (length pages))

    unfoldable pub generate_wiki : WikiSite → Ran
    unfolding write_pages resumed_pages
    generate_wiki site =
        let pages = resumed_pages (get_wiki env.wiki_get_ok repo_id site.wikis) toc in
        write_pages (page_slugs pages) toc pages site

  unfoldable pub outlined : String → WikiSite → Result Error (List WikiTocItem) → Ran
  unfolding generate_wiki fail_wiki update_to default_toc
  outlined repo_id site (err e) = fail_wiki outlining site
  outlined repo_id site (ok []) =
      update_to (env.db_ok 1) generating 15 (generate_wiki repo_id default_toc) site
  outlined repo_id site (ok (i ∷ is)) =
      update_to (env.db_ok 1) generating 15 (generate_wiki repo_id (i ∷ is)) site

  unfoldable pub outline : String → WikiSite → Ran
  unfolding outlined fail_wiki
  outline repo_id site =
      if env.search_ok then outlined repo_id site env.toc else fail_wiki outlining site

  unfoldable pub wiki_found : WikiSite → Result Error Repo → Ran
  unfolding outline update_to run_result
  wiki_found site (err e) = (run_result e, site)
  wiki_found site (ok repo) =
      if env.has_retriever
      then update_to (env.db_ok 0) outlining 5 (outline repo.repo_id) site
      else (failed_with (wrapped "no retriever available"), site)

  unfoldable pub wiki_execute : WikiSite → Ran
  unfolding wiki_found
  wiki_execute site = wiki_found site (get_repo env.repo_get_ok t.repo_id site.repos)
