-- ===== src/Store/Wikis.antt =====
-- pgWikiStore (deepwiki/internal/store/wiki_store.go) over the rows of `wiki_pages`, as one value for each
-- repository. The table's key is (repo_id, slug), and the row of the table of contents has the slug `_toc`.
use godeepwiki.Common.{
  ℕ, ◌≡◌, Bool, true, not, ◌&&◌, ◌||◌, String, List, [], ◌∷◌, Option, none, some, str_eq, eq_iff,
  if◌then◌else◌, ◌==◌, ltb, select, arith, Bool-cases, inl, inr, Result, ok, err,
}
use text.Mathlib.Text.{is_lt}
use Prim.Native.String.{compare}
use godeepwiki.Model.Errors.{Error, wrapped, wiki_not_found}
use godeepwiki.Store.Chunks.{valid_id, invalid_id, is_among}

pub record WikiTocItem : Type 0 where
  pub slug : String
  pub title : String
  pub parent_slug : String
  pub sort_order : ℕ

pub record WikiPage : Type 0 where
  pub slug : String
  pub title : String
  pub content_md : String
  pub sort_order : ℕ
  pub updated_at : ℕ

pub record Wiki : Type 0 where
  pub repo_id : String
  pub toc : List WikiTocItem
  pub pages : List WikiPage
  pub task_id : String
  pub generated_at : ℕ

abbrev pub Wikis : Type 0
Wikis = List Wiki

abbrev pub page_slugs : List WikiPage → List String
page_slugs [] = []
page_slugs (p ∷ ps) = p.slug ∷ page_slugs ps

unfoldable pub all_distinct : List String → Bool
unfolding is_among
all_distinct [] = true
all_distinct (s ∷ ss) = not (is_among s ss) && all_distinct ss

abbrev pub of_other : String → Wiki → Bool
of_other id w = not (str_eq w.repo_id id)

abbrev pub stamp_pages : ℕ → List WikiPage → List WikiPage
stamp_pages now [] = []
stamp_pages now (p ∷ ps) = record p { updated_at = now } ∷ stamp_pages now ps

abbrev pub stored_wiki : ℕ → Wiki → Wiki
stored_wiki now w = record w { pages = stamp_pages now w.pages; generated_at = now }

-- One transaction: the old rows of the repository go, the new ones come, or nothing changes.
unfoldable pub save_wiki : Bool → ℕ → Wiki → Wikis → Result Error (Unit {0}) × Wikis
unfolding all_distinct
save_wiki db_ok now w wikis =
    if not (valid_id w.repo_id) || (not (str_eq w.task_id "") && not (valid_id w.task_id))
    then (err invalid_id, wikis)
    else if db_ok && all_distinct ("_toc" ∷ page_slugs w.pages)
    then (ok tt, stored_wiki now w ∷ select (of_other w.repo_id) wikis)
    else (err (wrapped "save wiki"), wikis)

-- ORDER BY sort_order, slug
unfoldable pub page_before : WikiPage → WikiPage → Bool
page_before a b =
    ltb a.sort_order b.sort_order || (a.sort_order == b.sort_order && is_lt (compare a.slug b.slug))

unfoldable pub insert_page : WikiPage → List WikiPage → List WikiPage
unfolding page_before
insert_page p [] = p ∷ []
insert_page p (q ∷ qs) =
    let rest = insert_page p qs in if page_before q p then q ∷ rest else p ∷ q ∷ qs

unfoldable pub order_pages : List WikiPage → List WikiPage
unfolding insert_page
order_pages [] = []
order_pages (p ∷ ps) = insert_page p (order_pages ps)

unfoldable pub find_wiki : String → Wikis → Option Wiki
find_wiki id [] = none
find_wiki id (w ∷ ws) = if str_eq w.repo_id id then some w else find_wiki id ws

unfoldable pub got_wiki : Option Wiki → Result Error Wiki
unfolding order_pages
got_wiki none = err wiki_not_found
got_wiki (some w) = ok (record w { pages = order_pages w.pages })

unfoldable pub get_wiki : Bool → String → Wikis → Result Error Wiki
unfolding find_wiki got_wiki
get_wiki db_ok id wikis =
    if not (valid_id id)
    then err invalid_id
    else if db_ok
    then got_wiki (find_wiki id wikis)
    else err (wrapped "select wiki")

unfoldable pub delete_wiki : Bool → String → Wikis → Result Error (Unit {0}) × Wikis
delete_wiki db_ok id wikis =
    if not (valid_id id)
    then (err invalid_id, wikis)
    else if db_ok
    then (ok tt, select (of_other id) wikis)
    else (err (wrapped "delete wiki"), wikis)

-- A save that returns no error can be found.
pub save_wiki-finds :
    (db_ok : Bool) (now : ℕ) (w : Wiki) (wikis : Wikis)
    → (save_wiki db_ok now w wikis).0 ≡ ok tt
    → find_wiki w.repo_id (save_wiki db_ok now w wikis).1 ≡ some (stored_wiki now w)
unfolding save_wiki find_wiki
save_wiki-finds db_ok now w wikis h =
    elim (Bool-cases
      (not (valid_id w.repo_id) || (not (str_eq w.task_id "") && not (valid_id w.task_id)))) [
        | inl bad ↦ absurd (let no = rw bad at h in cc)
        | inr good ↦ elim (Bool-cases (db_ok && all_distinct ("_toc" ∷ page_slugs w.pages))) [
          | inr kept ↦ absurd (let no = rw (good, kept) at h in cc)
          | inl goes ↦ rw (good, goes) (ground (arith, eq_iff w.repo_id w.repo_id))
        ]
      ]
