-- ===== src/Store/Repos.antt =====
-- pgRepoStore (deepwiki/internal/store/repo_store.go): the `repos` table as a list of rows. The cascade of
-- a DELETE to the other tables is the schema's.
use godeepwiki.Common.{
  ℕ, ◌-◌, ◌*◌, Bool, not, ◌&&◌, ◌||◌, String, List, [], ◌∷◌, ◌++◌, Option, none, some, str_eq,
  if◌then◌else◌, is_some, leb, length, select, take, drop, map, Result, ok, err, ◌≡◌, arith, eq_iff,
}
use mathlib.Core.Option
use godeepwiki.Model.Repo.{Repo}
use godeepwiki.Model.Errors.{Error, wrapped, repo_not_found, repo_already_exists}
use godeepwiki.Store.Chunks.{valid_id, invalid_id}

abbrev pub Repos : Type 0
Repos = List Repo

abbrev pub has_repo_id : String → Repo → Bool
has_repo_id id r = str_eq r.repo_id id

unfoldable pub find_repo : (Repo → Bool) → Repos → Option Repo
find_repo p [] = none
find_repo p (r ∷ rs) = if p r then some r else find_repo p rs

abbrev pub at_url : String → String → Repo → Bool
at_url url branch r = str_eq r.repo_url url && str_eq r.branch branch

unfoldable pub found_repo : Option Repo → Result Error Repo
found_repo none = err repo_not_found
found_repo (some r) = ok r

-- INSERT under the keys repo_id and (repo_url, branch).
unfoldable pub create_repo : Bool → ℕ → Repo → Repos → Result Error (Unit {0}) × Repos
unfolding find_repo
create_repo db_ok now r repos =
    if not (valid_id r.repo_id)
    then (err invalid_id, repos)
    else if not db_ok
    then (err (wrapped "insert repo"), repos)
    else if is_some (find_repo (has_repo_id r.repo_id) repos)
        || is_some (find_repo (at_url r.repo_url r.branch) repos)
    then (err repo_already_exists, repos)
    else (ok tt, repos ++ (record r { created_at = now; updated_at = now }) ∷ [])

unfoldable pub get_repo : Bool → String → Repos → Result Error Repo
unfolding find_repo found_repo
get_repo db_ok id repos =
    if not (valid_id id)
    then err invalid_id
    else if db_ok
    then found_repo (find_repo (has_repo_id id) repos)
    else err (wrapped "select repo")

unfoldable pub get_by_url_branch : Bool → String → String → Repos → Result Error Repo
unfolding find_repo found_repo
get_by_url_branch db_ok url branch repos =
    if db_ok then found_repo (find_repo (at_url url branch) repos) else err (wrapped "select repo")

-- The columns that UPDATE sets.
abbrev set_columns : ℕ → Repo → Repo → Repo
set_columns now r old = record old {
  repo_url = r.repo_url;
  branch = r.branch;
  commit_hash = r.commit_hash;
  local_path = r.local_path;
  state = r.state;
  stats = r.stats;
  updated_at = now;
}

unfoldable pub update_rows : ℕ → Repo → Repos → Repos
update_rows now r [] = []
update_rows now r (x ∷ xs) =
    (if has_repo_id r.repo_id x then set_columns now r x else x) ∷ update_rows now r xs

-- An UPDATE that finds no row is no error.
unfoldable pub update_repo : Bool → ℕ → Repo → Repos → Result Error (Unit {0}) × Repos
unfolding update_rows
update_repo db_ok now r repos =
    if not (valid_id r.repo_id)
    then (err invalid_id, repos)
    else if db_ok
    then (ok tt, update_rows now r repos)
    else (err (wrapped "update repo"), repos)

unfoldable pub delete_repo : Bool → String → Repos → Result Error (Unit {0}) × Repos
delete_repo db_ok id repos =
    if not (valid_id id)
    then (err invalid_id, repos)
    else if db_ok
    then (ok tt, select (λ r. not (has_repo_id id r)) repos)
    else (err (wrapped "delete repo"), repos)

unfoldable pub insert_newest : Repo → Repos → Repos
insert_newest r [] = r ∷ []
insert_newest r (x ∷ xs) =
    let rest = insert_newest r xs in if leb x.created_at r.created_at then r ∷ x ∷ xs else x ∷ rest

unfoldable pub newest_first : Repos → Repos
unfolding insert_newest
newest_first [] = []
newest_first (r ∷ rs) = insert_newest r (newest_first rs)

-- ORDER BY created_at DESC LIMIT OFFSET, with the number of all rows.
unfoldable pub list_repos : Bool → ℕ → ℕ → Repos → Result Error (Repos × ℕ)
unfolding newest_first
list_repos db_ok page page_size repos =
    let p = if leb page 0 then 1 else page in
    let n = if leb page_size 0 then 20 else page_size in
    if db_ok
    then ok (take n (drop ((p - 1) * n) (newest_first repos)), length repos)
    else err (wrapped "list repos")

unfoldable pub list_repo_ids : Bool → Repos → Result Error (List String)
list_repo_ids db_ok repos =
    if db_ok then ok (map (λ r. r.repo_id) repos) else err (wrapped "list ids")

-- After an UPDATE the row of the key has the new state.
pub find_repo-update_rows :
    (now : ℕ) (r : Repo) (repos : Repos) (old : Repo)
    → find_repo (has_repo_id r.repo_id) repos ≡ some old
    → Option.map (λ x. x.state) (find_repo (has_repo_id r.repo_id) (update_rows now r repos))
      ≡ some r.state
unfolding find_repo update_rows
find_repo-update_rows now r [] old h = ground arith
find_repo-update_rows now r (x ∷ xs) old h = ground (arith, find_repo-update_rows now r xs old)

pub find_repo-id :
    (id : String) (repos : Repos) (r : Repo)
    → find_repo (has_repo_id id) repos ≡ some r
    → r.repo_id ≡ id
unfolding find_repo
find_repo-id id [] r h = ground arith
find_repo-id id (x ∷ xs) r h = ground (arith, eq_iff x.repo_id id, find_repo-id id xs r)
