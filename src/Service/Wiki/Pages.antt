-- ===== src/Service/Wiki/Pages.antt =====
-- How an execution of WikiExecutor (deepwiki/internal/service/executors.go) ends.
use mathlib.Core.List.{append_assoc, append-nil}
use godeepwiki.Common.{
  ◌+◌, ◌*◌, ◌/◌, ◌≡◌, refl, ap, subst, sym, ◌∙◌, true, String, List, [], ◌∷◌, ◌++◌, Option, none,
  some, inl, inr, Bool-cases, if◌then◌else◌, arith, All, All-append, Result, ok, err, length,
}
use godeepwiki.Model.Task.{Task, outlining, generating, completed, can_transition}
use godeepwiki.Model.Repo.{Repo}
use godeepwiki.Model.Errors.{Error, wrapped}
use godeepwiki.Store.Table.{state_of}
use godeepwiki.Store.Chunks.{is_among}
use godeepwiki.Store.Repos.{get_repo}
use godeepwiki.Store.Wikis.{
  WikiTocItem, WikiPage, Wikis, page_slugs, save_wiki, get_wiki, find_wiki, stored_wiki,
  save_wiki-finds,
}
use godeepwiki.Manager.Dispatch.{done, failed_with}
use godeepwiki.Service.Ingesting.Outcome.{found_repo_lem}
use godeepwiki.Service.Wiki.{
  WikiEnv, WikiSite, Ran, resumed_pages, update_to, wiki_of, end_patch, save_checkpoint, page_of,
  page_made, page_checked, wiki_saved, write_pages, generate_wiki, outlined, outline, wiki_found,
  wiki_execute, default_toc,
}
use godeepwiki.Store.Ops.{update_state}
use godeepwiki.Store.Landing.{update_state-lands}
use godeepwiki.Service.Wiki.Ends.{
  IsComplete, IsWikiOutcome, is_among-append, IsComplete-page, page_among, stamped_slugs,
  run_result-outcome, if_either, Ends, fail_wiki-Ends, update_to-Ends, updated-Ends,
}

module _ (env : WikiEnv) (t : Task) (fails : env.fail_ok ≡ true) (repo_id : String) where
  module _ (toc : List WikiTocItem) where
    wiki_saved-Ends :
        (pages : List WikiPage) (site : WikiSite) (reply : Result Error (Unit {0}) × Wikis)
        → IsComplete toc pages
        → (reply.0 ≡ ok tt
            → find_wiki repo_id reply.1
              ≡ some (stored_wiki env.now (wiki_of env t repo_id toc pages)))
        → Ends env t fails repo_id (wiki_saved env t repo_id toc site reply)
    unfolding wiki_saved
    wiki_saved-Ends pages site (err e, wikis) complete found =
        run_result-outcome e t.task_id repo_id (record site { wikis = wikis })
    wiki_saved-Ends pages site (ok _, wikis) complete found =
        updated-Ends env t fails repo_id completed 100 (λ s. (done, s))
          (record site { wikis = wikis })
          (update_state env.end_ok env.end_ok env.now t.task_id (end_patch env t repo_id toc)
            site.tasks)
          (update_state-lands env.end_ok env.end_ok env.now t.task_id completed
            (end_patch env t repo_id toc) site.tasks refl)
          (λ s at same. inl (
            at,
            (
              stored_wiki env.now (wiki_of env t repo_id toc pages),
              ap (find_wiki repo_id) same ∙ found refl,
              subst (λ slugs. All (λ item. is_among item.slug slugs ≡ true) toc)
                  (sym (stamped_slugs env.now pages)) complete,
            ),
          ))

    -- What the loop's rest is asked for, when the pages of `covered` are there.
    abbrev Goes : List WikiTocItem → List String → (List WikiPage → WikiSite → Ran) → Type 0
    Goes covered skip rest =
        (pages : List WikiPage) (site : WikiSite)
        → state_of t.task_id site.tasks ≡ some generating
        → IsComplete covered pages
        → ((p : String) → is_among p skip ≡ true → is_among p (page_slugs pages) ≡ true)
        → Ends env t fails repo_id (rest pages site)

    page_made-Ends :
        (item : WikiTocItem) (covered : List WikiTocItem) (skip : List String)
        (rest : List WikiPage → WikiSite → Ran)
        → Goes (covered ++ item ∷ []) skip rest
        → (pages : List WikiPage) (site : WikiSite) (made : Result Error String)
        → state_of t.task_id site.tasks ≡ some generating
        → IsComplete covered pages
        → ((p : String) → is_among p skip ≡ true → is_among p (page_slugs pages) ≡ true)
        → Ends env t fails repo_id (page_made env t repo_id toc item rest pages site made)
    unfolding page_made save_checkpoint can_transition
    page_made-Ends item covered skip rest goes pages site (err e) at complete kept =
        fail_wiki-Ends env t fails repo_id generating (save_checkpoint env t repo_id toc pages site)
          at refl
    page_made-Ends item covered skip rest goes pages site (ok content) at complete kept =
        let p = page_of env t repo_id toc item content in
        let pages' = pages ++ p ∷ [] in
        update_to-Ends env t fails repo_id (env.db_ok (length pages')) generating
          (15 + 80 * length pages' / length toc) (rest pages')
          (save_checkpoint env t repo_id toc pages' site)
          (λ s at' same.
            goes pages' s at'
              (All-append (λ i. is_among i.slug (page_slugs pages') ≡ true) covered (item ∷ [])
                (IsComplete-page covered pages p complete) (page_among item pages p refl, tt))
              (λ q among. ground (arith, is_among-append q pages (p ∷ []), kept q among)))

    page_checked-Ends :
        (item : WikiTocItem) (covered : List WikiTocItem) (skip : List String)
        (rest : List WikiPage → WikiSite → Ran)
        → Goes (covered ++ item ∷ []) skip rest
        → (pages : List WikiPage) (site : WikiSite) (stop : Option Error)
        → state_of t.task_id site.tasks ≡ some generating
        → IsComplete covered pages
        → ((p : String) → is_among p skip ≡ true → is_among p (page_slugs pages) ≡ true)
        → Ends env t fails repo_id (page_checked env t repo_id toc item rest pages site stop)
    unfolding page_checked
    page_checked-Ends item covered skip rest goes pages site (some e) at complete kept =
        run_result-outcome e t.task_id repo_id site
    page_checked-Ends item covered skip rest goes pages site none at complete kept =
        page_made-Ends item covered skip rest goes pages site (env.page item) at complete kept

    write_pages-Ends :
        (skip : List String) (items : List WikiTocItem) (covered : List WikiTocItem)
        → covered ++ items ≡ toc
        → Goes covered skip (write_pages env t repo_id toc skip items)
    unfolding write_pages
    write_pages-Ends skip [] covered is_toc pages site at complete kept =
        wiki_saved-Ends pages site
          (save_wiki env.final_save_ok env.now (wiki_of env t repo_id toc pages) site.wikis)
          (subst (λ c. IsComplete c pages) (sym (append-nil covered) ∙ is_toc) complete)
          (save_wiki-finds env.final_save_ok env.now (wiki_of env t repo_id toc pages) site.wikis)
    write_pages-Ends skip (item ∷ items) covered is_toc pages site at complete kept =
        let goes =
          write_pages-Ends skip items (covered ++ item ∷ [])
            (append_assoc covered (item ∷ []) items ∙ is_toc) in
        elim (Bool-cases (is_among item.slug skip)) [
          | inl there ↦ rw there (
              goes pages site at
                (All-append (λ i. is_among i.slug (page_slugs pages) ≡ true) covered (item ∷ [])
                  complete (kept item.slug there, tt))
                kept)
          | inr missing ↦ rw missing (
              page_checked-Ends item covered skip (write_pages env t repo_id toc skip items) goes
                pages site (env.cancelled (length pages)) at complete kept)
        ]

    generate_wiki-Ends :
        (site : WikiSite)
        → state_of t.task_id site.tasks ≡ some generating
        → Ends env t fails repo_id (generate_wiki env t repo_id toc site)
    unfolding generate_wiki
    generate_wiki-Ends site at =
        let pages = resumed_pages (get_wiki env.wiki_get_ok repo_id site.wikis) toc in
        write_pages-Ends (page_slugs pages) toc [] refl pages site at tt (λ p among. among)

  outlined-Ends :
      (site : WikiSite) (toc : Result Error (List WikiTocItem))
      → state_of t.task_id site.tasks ≡ some outlining
      → Ends env t fails repo_id (outlined env t repo_id site toc)
  unfolding outlined can_transition
  outlined-Ends site (err e) at = fail_wiki-Ends env t fails repo_id outlining site at refl
  outlined-Ends site (ok []) at =
      update_to-Ends env t fails repo_id (env.db_ok 1) generating 15
        (generate_wiki env t repo_id default_toc) site
        (λ s at' same. generate_wiki-Ends default_toc s at')
  outlined-Ends site (ok (i ∷ is)) at =
      update_to-Ends env t fails repo_id (env.db_ok 1) generating 15
        (generate_wiki env t repo_id (i ∷ is)) site
        (λ s at' same. generate_wiki-Ends (i ∷ is) s at')

  outline-Ends :
      (site : WikiSite)
      → state_of t.task_id site.tasks ≡ some outlining
      → Ends env t fails repo_id (outline env t repo_id site)
  unfolding outline can_transition
  outline-Ends site at =
      if_either (Ends env t fails repo_id) env.search_ok (outlined-Ends site env.toc at)
        (fail_wiki-Ends env t fails repo_id outlining site at refl)

  wiki_found-Ends :
      (site : WikiSite) (reply : Result Error Repo)
      → ((r : Repo) → reply ≡ ok r → r.repo_id ≡ repo_id)
      → Ends env t fails repo_id (wiki_found env t site reply)
  unfolding wiki_found
  wiki_found-Ends site (err e) same = run_result-outcome e t.task_id repo_id site
  wiki_found-Ends site (ok repo) same =
      subst
        (λ id. Ends env t fails repo_id (
          if env.has_retriever
          then update_to env t (env.db_ok 0) outlining 5 (outline env t id) site
          else (failed_with (wrapped "no retriever available"), site)))
        (sym (same repo refl))
        (if_either (Ends env t fails repo_id) env.has_retriever
          (update_to-Ends env t fails repo_id (env.db_ok 0) outlining 5 (outline env t repo_id) site
            (λ s at kept. outline-Ends s at))
          tt)

-- When the UPDATE that fails a task works, an execution of a wiki task that returns no error has ended
-- in one of two ways: the task is completed and a wiki of the repository is stored with a page for every
-- item of its table of contents, whatever pages an earlier execution left; or the task is failed. The
-- other UPDATEs, the checkpoints, the retriever, the model and the context may answer anything.
pub wiki_execute-outcome :
    (env : WikiEnv) (t : Task) (site : WikiSite)
    → env.fail_ok ≡ true
    → IsWikiOutcome t.task_id t.repo_id (wiki_execute env t site)
unfolding wiki_execute
wiki_execute-outcome env t site fails =
    wiki_found-Ends env t fails t.repo_id site (get_repo env.repo_get_ok t.repo_id site.repos)
      (λ r got. (found_repo_lem env.repo_get_ok t.repo_id site.repos r got).1)
