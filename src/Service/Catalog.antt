-- ===== src/Service/Catalog.antt =====
-- RepoService (deepwiki/internal/service/repo_service.go). The directory of a repository is not modelled,
-- but for whether its removal worked.
pub mod Deletion
use godeepwiki.Common.{
  ℕ, Bool, true, false, not, ◌&&◌, String, List, [], ◌∷◌, Option, none, some, str_eq, if◌then◌else◌,
  ltb, leb, length, Result, ok, err,
}
use godeepwiki.Common.Dict.{lookup, delete}
use godeepwiki.Model.Task.{Task, TaskFilter}
use godeepwiki.Model.Repo.{Repo}
use godeepwiki.Model.Errors.{Error, api_error, code_invalid_param}
use godeepwiki.Store.Ops.{list}
use godeepwiki.Store.Chunks.{valid_repo_id, count_by_repo}
use godeepwiki.Store.Repos.{Repos, get_repo, list_repos}
use godeepwiki.Store.Wikis.{Wiki, get_wiki}
use godeepwiki.Service.Desk.{Desk, delete_cascade, tasks_of}

pub record CatalogEnv : Type 0 where
  pub get_ok : Bool
  pub list_ok : Bool
  pub wiki_ok : Bool
  pub count_ok : Bool
  pub delete_ok : Bool
  pub has_search : Bool
  pub docs_ok : Bool
  pub index_ok : Bool
  pub remove_ok : Bool

-- RepoService.ListRepos, with the bounds of a page.
unfoldable pub clamped_size : ℕ → ℕ
clamped_size size = if leb size 0 then 20 else if ltb 100 size then 100 else size

unfoldable pub list_page : Bool → ℕ → ℕ → Repos → Result Error (Repos × ℕ)
unfolding clamped_size list_repos
list_page db_ok page size repos =
    list_repos db_ok (if ltb page 1 then 1 else page) (clamped_size size) repos

pub record RepoDetail : Type 0 where
  pub repo : Repo
  pub latest_task : Option Task
  pub wiki_available : Bool
  pub chunk_count : ℕ

abbrev first_task : Result Error (List Task × ℕ) → Option Task
first_task (err e) = none
first_task (ok ([], n)) = none
first_task (ok (t ∷ ts, n)) = some t

abbrev is_found : Result Error Wiki → Bool
is_found (err e) = false
is_found (ok w) = true

abbrev or_zero : Result Error ℕ → ℕ
or_zero (err e) = 0
or_zero (ok n) = n

-- The parts that cannot be read are left empty.
unfoldable pub detail_of : CatalogEnv → String → Desk → Result Error Repo → Result Error RepoDetail
unfolding list get_wiki count_by_repo
detail_of env id desk (err e) = err e
detail_of env id desk (ok r) = ok (record {
  repo = r;
  latest_task =
      first_task (list env.list_ok (record (tasks_of id) { page_size = 1 }) desk.world.table);
  wiki_available = is_found (get_wiki env.wiki_ok id desk.wikis);
  chunk_count = or_zero (count_by_repo env.count_ok id desk.chunks);
})

unfoldable pub repo_detail : CatalogEnv → String → Desk → Result Error RepoDetail
unfolding detail_of get_repo valid_repo_id
repo_detail env id desk =
    if valid_repo_id id
    then detail_of env id desk (get_repo env.get_ok id desk.repos)
    else err (api_error code_invalid_param "invalid repo_id format")

pub record RepoDeleteResult : Type 0 where
  pub chunks : ℕ
  pub vectors : ℕ
  pub wiki_pages : ℕ
  pub open_search_docs : ℕ
  pub local_dir : Bool

abbrev pages_of : Result Error Wiki → ℕ
pages_of (err e) = 0
pages_of (ok w) = length w.pages

abbrev docs_of_index : String → Desk → ℕ
docs_of_index id desk = elim (lookup id desk.indexes) [ none ↦ 0 | some index ↦ length index ]

-- What is there before the deletion.
unfoldable pub counted : CatalogEnv → Repo → String → Desk → RepoDeleteResult
unfolding get_wiki count_by_repo lookup
counted env r id desk = record {
  chunks = or_zero (count_by_repo env.count_ok id desk.chunks);
  vectors = or_zero (count_by_repo env.count_ok id desk.chunks);
  wiki_pages = pages_of (get_wiki env.wiki_ok id desk.wikis);
  open_search_docs = if env.has_search && env.docs_ok then docs_of_index id desk else 0;
  local_dir = not (str_eq r.local_path "") && env.remove_ok;
}

-- After the transaction the index goes; a failure there is only logged.
abbrev pub without_index : CatalogEnv → String → Desk → Desk
without_index env id desk =
    if env.has_search && env.index_ok
    then record desk { indexes = delete id desk.indexes }
    else desk

abbrev pub deleted :
    CatalogEnv
    → String
    → RepoDeleteResult
    → Result Error (Unit {0}) × Desk
    → Result Error RepoDeleteResult × Desk
deleted env id res (err e, desk) = (err e, desk)
deleted env id res (ok _, desk) = (ok res, without_index env id desk)

unfoldable pub delete_found :
    CatalogEnv → String → Desk → Result Error Repo → Result Error RepoDeleteResult × Desk
unfolding counted delete_cascade delete
delete_found env id desk (err e) = (err e, desk)
delete_found env id desk (ok r) =
    deleted env id (counted env r id desk) (delete_cascade env.delete_ok id desk)

unfoldable pub remove_repo : CatalogEnv → String → Desk → Result Error RepoDeleteResult × Desk
unfolding delete_found get_repo valid_repo_id
remove_repo env id desk =
    if valid_repo_id id
    then delete_found env id desk (get_repo env.get_ok id desk.repos)
    else (err (api_error code_invalid_param "invalid repo_id format"), desk)
