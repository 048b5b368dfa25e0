-- ===== src/Service/Catalog/Deletion.antt =====
-- What the deletion of a repository (deepwiki/internal/service/repo_service.go) takes and what it leaves.
use godeepwiki.Common.{
  ◌≡◌, ◌≢◌, refl, ap, subst, sym, ◌∙◌, Bool, true, false, not, ◌&&◌, String, List, [], ◌∷◌, none,
  if◌then◌else◌, Bool-cases, inl, inr, str_eq, eq_iff, select, All, arith, Result, ok, err,
}
use godeepwiki.Common.Dict.{delete}
use godeepwiki.Model.Repo.{Repo}
use godeepwiki.Model.Chunk.{Chunk}
use godeepwiki.Model.Errors.{Error}
use godeepwiki.Store.Table.{Table, find_row, update_where, state_of}
use godeepwiki.Store.Chunks.{of_repo, valid_id, valid_repo_id}
use godeepwiki.Store.Repos.{Repos, has_repo_id, find_repo, delete_repo, get_repo}
use godeepwiki.Store.Wikis.{Wikis, find_wiki, of_other}
use godeepwiki.Service.Desk.{Desk, cascaded, delete_cascade, forget_repo, task_of_repo}
use godeepwiki.Service.Catalog.{
  CatalogEnv, RepoDeleteResult, without_index, deleted, delete_found, remove_repo, counted,
}

find_repo-gone :
    (id : String) (repos : Repos)
    → find_repo (has_repo_id id) (select (λ r. not (has_repo_id id r)) repos) ≡ none
unfolding find_repo
find_repo-gone id [] = refl
find_repo-gone id (r ∷ rs) = ground (arith, find_repo-gone id rs)

find_repo-other :
    (id other : String) (repos : Repos)
    → other ≢ id
    → find_repo (has_repo_id other) (select (λ r. not (has_repo_id id r)) repos)
      ≡ find_repo (has_repo_id other) repos
unfolding find_repo
find_repo-other id other [] ne = refl
find_repo-other id other (r ∷ rs) ne =
    ground (arith, eq_iff r.repo_id id, eq_iff r.repo_id other, find_repo-other id other rs ne, ne)

chunks-gone :
    (id : String) (cs : List Chunk)
    → All (λ c. of_repo id c ≡ false) (select (λ c. not (of_repo id c)) cs)
chunks-gone id [] = tt
chunks-gone id (c ∷ cs) = elim (Bool-cases (of_repo id c)) [
  | inl mine ↦ rw mine (chunks-gone id cs)
  | inr other ↦ rw other (other, chunks-gone id cs)
]

chunks-other :
    (id other : String) (cs : List Chunk)
    → other ≢ id
    → select (of_repo other) (select (λ c. not (of_repo id c)) cs) ≡ select (of_repo other) cs
chunks-other id other [] ne = refl
chunks-other id other (c ∷ cs) ne =
    ground (arith, eq_iff c.repo_id id, eq_iff c.repo_id other, chunks-other id other cs ne, ne)

find_wiki-gone : (id : String) (ws : Wikis) → find_wiki id (select (of_other id) ws) ≡ none
unfolding find_wiki
find_wiki-gone id [] = refl
find_wiki-gone id (w ∷ ws) = ground (arith, find_wiki-gone id ws)

find_wiki-other :
    (id other : String) (ws : Wikis)
    → other ≢ id
    → find_wiki other (select (of_other id) ws) ≡ find_wiki other ws
unfolding find_wiki
find_wiki-other id other [] ne = refl
find_wiki-other id other (w ∷ ws) ne =
    ground (arith, eq_iff w.repo_id id, eq_iff w.repo_id other, find_wiki-other id other ws ne, ne)

forget_repo-gone :
    (id : String) (table : Table)
    → str_eq "" id ≡ false
    → All (λ r. task_of_repo id r ≡ false) (forget_repo id table)
unfolding forget_repo update_where
forget_repo-gone id [] named = tt
forget_repo-gone id (r ∷ rs) named = elim (Bool-cases (task_of_repo id r)) [
  | inl mine ↦ rw mine (named, forget_repo-gone id rs named)
  | inr other ↦ rw other (other, forget_repo-gone id rs named)
]

forget_repo-state :
    (id task : String) (table : Table) → state_of task (forget_repo id table) ≡ state_of task table
unfolding forget_repo find_row update_where
forget_repo-state id task [] = refl
forget_repo-state id task (r ∷ rs) = ground (arith, forget_repo-state id task rs)

valid_repo_id-named : (id : String) → valid_repo_id id ≡ true → str_eq "" id ≡ false
unfolding valid_repo_id
valid_repo_id-named id good = elim (Bool-cases (str_eq "" id)) [
  | inr other ↦ other
  | inl empty ↦ absurd (
      let no : valid_repo_id "" ≡ true =
        subst (λ s. valid_repo_id s ≡ true) (sym ((eq_iff "" id).0 empty)) good in
      cc)
]

-- Nothing of the repository is left in the database, every other repository keeps its rows, and the
-- tasks keep their states.
abbrev pub IsGone : String → Desk → Desk → Type 0
IsGone id before after =
    (find_repo (has_repo_id id) after.repos ≡ none)
    × All (λ c. of_repo id c ≡ false) after.chunks
    × (find_wiki id after.wikis ≡ none)
    × All (λ r. task_of_repo id r ≡ false) after.world.table
    × ((other : String)
        → other ≢ id
        → (find_repo (has_repo_id other) after.repos ≡ find_repo (has_repo_id other) before.repos)
          × (select (of_repo other) after.chunks ≡ select (of_repo other) before.chunks)
          × (find_wiki other after.wikis ≡ find_wiki other before.wikis))
    × ((task : String) → state_of task after.world.table ≡ state_of task before.world.table)

-- An error changes nothing.
abbrev pub IsDeletion : String → Desk → Result Error RepoDeleteResult × Desk → Type 0
IsDeletion id before (ok res, after) = IsGone id before after
IsDeletion id before (err e, after) = after ≡ before

-- The two replies of the DELETE.
abbrev Replied : String → Repos → Result Error (Unit {0}) × Repos → Type 0
Replied id repos (ok _, rs) = rs ≡ select (λ r. not (has_repo_id id r)) repos
Replied id repos (err e, rs) = rs ≡ repos

delete_repo-Replied :
    (db_ok : Bool) (id : String) (repos : Repos) → Replied id repos (delete_repo db_ok id repos)
unfolding delete_repo
delete_repo-Replied db_ok id repos = elim (Bool-cases (valid_id id)) [
  | inr bad ↦ rw bad refl
  | inl good ↦ elim (Bool-cases db_ok) [
    | inl up ↦ rw (good, up) refl
    | inr down ↦ rw (good, down) refl
  ]
]

without_index-IsGone :
    (env : CatalogEnv) (id : String) (before after : Desk)
    → IsGone id before after
    → IsGone id before (without_index env id after)
without_index-IsGone env id before after gone = elim (Bool-cases (env.has_search && env.index_ok)) [
  | inl drops ↦
      subst
        (λ b.
          IsGone id before
            (if b then record after { indexes = delete id after.indexes } else after))
        (sym drops) gone
  | inr keeps ↦
      subst
        (λ b.
          IsGone id before
            (if b then record after { indexes = delete id after.indexes } else after))
        (sym keeps) gone
]

deleted-IsDeletion :
    (env : CatalogEnv) (id : String) (res : RepoDeleteResult) (desk : Desk)
    (reply : Result Error (Unit {0}) × Repos)
    → str_eq "" id ≡ false
    → Replied id desk.repos reply
    → IsDeletion id desk (deleted env id res (cascaded id desk reply))
deleted-IsDeletion env id res desk (err e, rs) named kept = ap (λ r. record desk { repos = r }) kept
deleted-IsDeletion env id res desk (ok _, rs) named gone =
    without_index-IsGone env id desk (cascaded id desk (ok tt, rs)).1 (
      ap (find_repo (has_repo_id id)) gone ∙ find_repo-gone id desk.repos,
      chunks-gone id desk.chunks,
      find_wiki-gone id desk.wikis,
      forget_repo-gone id desk.world.table named,
      (λ other ne. (
        ap (find_repo (has_repo_id other)) gone ∙ find_repo-other id other desk.repos ne,
        chunks-other id other desk.chunks ne,
        find_wiki-other id other desk.wikis ne,
      )),
      (λ task. forget_repo-state id task desk.world.table),
    )

delete_found-IsDeletion :
    (env : CatalogEnv) (id : String) (desk : Desk) (found : Result Error Repo)
    → str_eq "" id ≡ false
    → IsDeletion id desk (delete_found env id desk found)
unfolding delete_found delete_cascade
delete_found-IsDeletion env id desk (err e) named = refl
delete_found-IsDeletion env id desk (ok r) named =
    deleted-IsDeletion env id (counted env r id desk) desk (delete_repo env.delete_ok id desk.repos)
      named (delete_repo-Replied env.delete_ok id desk.repos)

-- DeleteRepo either returns an error and changes nothing, or nothing of the repository is left in
-- the database: no row of it, no block, no wiki, and no task that refers to it; and every other
-- repository keeps its row, its blocks and its wiki, and every task its state.
pub remove_repo-IsDeletion :
    (env : CatalogEnv) (id : String) (desk : Desk) → IsDeletion id desk (remove_repo env id desk)
unfolding remove_repo
remove_repo-IsDeletion env id desk = elim (Bool-cases (valid_repo_id id)) [
  | inr bad ↦ rw bad refl
  | inl good ↦ rw good (
      delete_found-IsDeletion env id desk (get_repo env.get_ok id desk.repos)
        (valid_repo_id-named id good))
]
