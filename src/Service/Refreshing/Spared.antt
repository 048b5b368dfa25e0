-- ===== src/Service/Refreshing/Spared.antt =====
-- What DiffStage (service/executors.go) leaves in the table: rows of files that are there, in their version.
use godeepwiki.Common.{
  ◌≡◌, refl, sym, subst, Bool, true, false, not, ◌&&◌, String, List, [], ◌∷◌, some, arith,
  Bool-cases, inl, inr, All, select, Result, ok, err, length, ◌==◌,
}
use godeepwiki.Common.Dict.{lookup}
use godeepwiki.Model.Chunk.{Chunk}
use godeepwiki.Model.Errors.{Error}
use godeepwiki.Store.Chunks.{is_among, of_repo, hashes_from, file_hashes, delete_by_paths, valid_id}
use godeepwiki.Search.Index.{delete_docs}
use godeepwiki.Ingest.Chunker.{SourceFile}
use godeepwiki.Ingest.Pipeline.Chain.{Ensures}
use godeepwiki.Ingest.Stages.{StageEnv, Work}
use godeepwiki.Service.Refreshing.{
  Hashes, changed_files, dirty_paths, fetch_stage, fetched, diff_stage, diff_parsed, compared,
  delete_dirty, keep_changed, unindexed,
}
use godeepwiki.Service.Refreshing.Diff.{has_version, clean_path}

-- FileHashes has for each row of the repository the row's own hash: the rows of a path have one.
abbrev pub IsUniform : String → List Chunk → Type 0
IsUniform repo_id table =
    All
      (λ c.
        of_repo repo_id c ≡ true
        → lookup c.path (hashes_from (select (of_repo repo_id) table) []) ≡ some c.file_hash)
      table

-- Each row of the repository is of a file of the tree, in the version that the tree has.
abbrev pub IsCurrent : String → List SourceFile → List Chunk → Type 0
IsCurrent repo_id files =
    All (λ c. of_repo repo_id c ≡ true → has_version c.path c.file_hash files ≡ true)

All-select {ℓ κ} :
    {A : Type ℓ} (P Q : A → Type κ) (keep : A → Bool) (xs : List A)
    → ((x : A) → P x → keep x ≡ true → Q x)
    → All P xs
    → All Q (select keep xs)
All-select P Q keep [] h all = tt
All-select P Q keep (x ∷ xs) h all = elim (Bool-cases (keep x)) [
  | inl kept ↦ rw kept (h x all.0 kept, All-select P Q keep xs h all.1)
  | inr gone ↦ rw gone (All-select P Q keep xs h all.1)
]

pub All-imp {ℓ κ} :
    {A : Type ℓ} (P Q : A → Type κ) (xs : List A) → ((x : A) → P x → Q x) → All P xs → All Q xs
All-imp P Q [] h all = tt
All-imp P Q (x ∷ xs) h all = (h x all.0, All-imp P Q xs h all.1)

no_dirt : (dirty : List String) (p : String) → (length dirty == 0) ≡ true → is_among p dirty ≡ false
unfolding is_among
no_dirt [] p h = refl
no_dirt (d ∷ ds) p h = absurd (ground arith)

spared_lem : (a b : Bool) → not (a && b) ≡ true → a ≡ true → b ≡ false
spared_lem a b h m = ground arith

module _ (env : StageEnv) (repo_id : String) (files : List SourceFile) where
  -- Before the diff.
  abbrev pub Before : Work → Type 0
  Before w = (w.repo_id ≡ repo_id) × IsUniform repo_id w.table

  -- After it: what is left is current, and the files still to do are of the tree.
  abbrev pub Left : Work → Type 0
  Left w =
      (w.repo_id ≡ repo_id)
      × IsCurrent repo_id files w.table
      × ((p h : String) → has_version p h w.files ≡ true → has_version p h files ≡ true)

  pub fetch_lem : (w : Work) → Before w → Ensures Before (fetch_stage env w)
  unfolding fetch_stage
  fetch_lem w b = fetched_lem env.fetch w b
    where
      fetched_lem :
          (r : Result Error String) (w : Work) → Before w → Ensures Before (fetched env r w)
      fetched_lem (ok c) w b = b
      fetched_lem (err e) w b = tt

  -- The rows after a deletion of the dirty paths.
  abbrev Spared : List String → (Chunk → Type 0) → Work → Type 0
  Spared dirty P w =
      (w.repo_id ≡ repo_id)
      × All (λ c. P c × (of_repo repo_id c ≡ true → is_among c.path dirty ≡ false)) w.table

  -- The reply of a deletion, with the table that it left.
  abbrev DeletesTo : List String → (Chunk → Type 0) → Result Error (Unit {0}) × List Chunk → Type 0
  DeletesTo dirty P (ok _, table) =
      All (λ c. P c × (of_repo repo_id c ≡ true → is_among c.path dirty ≡ false)) table
  DeletesTo dirty P (err e, table) = Unit {0}

  delete_by_paths-DeletesTo :
      (db_ok : Bool) (dirty : List String) (P : Chunk → Type 0) (table : List Chunk)
      → (length dirty == 0) ≡ false
      → All P table
      → DeletesTo dirty P (delete_by_paths db_ok repo_id dirty table)
  unfolding delete_by_paths
  delete_by_paths-DeletesTo db_ok dirty P table some_there all =
      elim (Bool-cases (valid_id repo_id)) [
        | inr bad ↦ rw bad tt
        | inl good ↦ elim (Bool-cases db_ok) [
          | inr down ↦ rw (good, some_there, down) tt
          | inl up ↦
              rw (good, some_there, up)
                (All-select P
                  (λ c. P c × (of_repo repo_id c ≡ true → is_among c.path dirty ≡ false))
                  (λ c. not (of_repo repo_id c && is_among c.path dirty)) table
                  (λ c p kept.
                    (p, λ mine. spared_lem (of_repo repo_id c) (is_among c.path dirty) kept mine))
                  all)
        ]
      ]

  pub Ensures-any :
      (P : Work → Type 0) (reply : Result Error (Unit {0})) (w : Work) → P w → Ensures P (reply, w)
  Ensures-any P (ok _) w p = p
  Ensures-any P (err e) w p = tt

  unindexed-Spared :
      (dirty : List String) (P : Chunk → Type 0) (w : Work)
      (reply : Result Error (Unit {0}) × List Chunk)
      → w.repo_id ≡ repo_id
      → DeletesTo dirty P reply
      → Ensures (Spared dirty P) (unindexed env dirty reply.0 (record w { table = reply.1 }))
  unfolding unindexed
  unindexed-Spared dirty P w (err e, table) mine d = tt
  unindexed-Spared dirty P w (ok _, table) mine d =
      Ensures-any (Spared dirty P) (delete_docs env.unindex_ok dirty w.index).0
        (record w { table = table; index = (delete_docs env.unindex_ok dirty w.index).1 }) (mine, d)

  delete_dirty-Spared :
      (dirty : List String) (P : Chunk → Type 0) (w : Work)
      → w.repo_id ≡ repo_id
      → All P w.table
      → Ensures (Spared dirty P) (delete_dirty env dirty w)
  unfolding delete_dirty
  delete_dirty-Spared dirty P w mine all = elim (Bool-cases (length dirty == 0)) [
    | inl none_there ↦ rw none_there (
      mine,
      All-imp P (λ c. P c × (of_repo repo_id c ≡ true → is_among c.path dirty ≡ false)) w.table
          (λ c p. (p, λ m. no_dirt dirty c.path none_there)) all,
    )
    | inr some_there ↦ rw some_there (
        subst
          (λ i. Ensures (Spared dirty P) (
            unindexed env dirty (delete_by_paths env.delete_ok i dirty w.table).0
              (record w { table = (delete_by_paths env.delete_ok i dirty w.table).1 })))
          (sym mine)
          (unindexed-Spared dirty P w (delete_by_paths env.delete_ok repo_id dirty w.table) mine
            (delete_by_paths-DeletesTo env.delete_ok dirty P w.table some_there all)))
  ]

  changed_files-version :
      (old : Hashes) (fs : List SourceFile) (p h : String)
      → has_version p h (changed_files old fs) ≡ true
      → has_version p h fs ≡ true
  unfolding changed_files
  changed_files-version old [] p h v = v
  changed_files-version old (f ∷ fs) p h v = ground (arith, changed_files-version old fs p h)

  -- A spared row is current, by the hash that FileHashes has for it.
  spared-IsCurrent :
      (old : Hashes) (table : List Chunk)
      → All
          (λ c.
            (of_repo repo_id c ≡ true → lookup c.path old ≡ some c.file_hash)
            × (of_repo repo_id c ≡ true → is_among c.path (dirty_paths old files) ≡ false))
          table
      → IsCurrent repo_id files table
  spared-IsCurrent old table =
      All-imp
        (λ c.
          (of_repo repo_id c ≡ true → lookup c.path old ≡ some c.file_hash)
          × (of_repo repo_id c ≡ true → is_among c.path (dirty_paths old files) ≡ false))
        (λ c. of_repo repo_id c ≡ true → has_version c.path c.file_hash files ≡ true) table
        (λ c p mine. clean_path c.path c.file_hash old files (p.0 mine) (p.1 mine))

  keep_changed-Left :
      (old : Hashes) (reply : Result Error (Unit {0}) × Work)
      → Ensures
          (Spared
            (dirty_paths old files)
            (λ c. of_repo repo_id c ≡ true → lookup c.path old ≡ some c.file_hash))
          reply
      → Ensures Left (keep_changed env (changed_files old files) reply)
  keep_changed-Left old (err e, w) s = tt
  keep_changed-Left old (ok _, w) s =
      (s.0, spared-IsCurrent old w.table s.1, changed_files-version old files)

  -- The hashes that a reply of FileHashes brings are the rows' own.
  abbrev Hashed : List Chunk → Result Error Hashes → Type 0
  Hashed table (ok old) =
      All (λ c. of_repo repo_id c ≡ true → lookup c.path old ≡ some c.file_hash) table
  Hashed table (err e) = Unit {0}

  file_hashes-Hashed :
      (db_ok : Bool) (table : List Chunk)
      → IsUniform repo_id table
      → Hashed table (file_hashes db_ok repo_id table)
  unfolding file_hashes
  file_hashes-Hashed db_ok table u = elim (Bool-cases (valid_id repo_id)) [
    | inr bad ↦ rw bad tt
    | inl good ↦ elim (Bool-cases db_ok) [
      | inl up ↦ rw (good, up) u
      | inr down ↦ rw (good, down) tt
    ]
  ]

  compared-Left :
      (w : Work) (reply : Result Error Hashes)
      → w.repo_id ≡ repo_id
      → Hashed w.table reply
      → Ensures Left (compared env files reply w)
  unfolding compared
  compared-Left w (err e) mine h = tt
  compared-Left w (ok old) mine h =
      keep_changed-Left old (delete_dirty env (dirty_paths old files) w) (
        delete_dirty-Spared (dirty_paths old files)
          (λ c. of_repo repo_id c ≡ true → lookup c.path old ≡ some c.file_hash) w mine h)

  pub diff_lem : env.parse ≡ ok files → (w : Work) → Before w → Ensures Left (diff_stage env w)
  unfolding diff_stage
  diff_lem parsed w (mine, u) =
      rw (parsed, diff_parsed)
        (compared-Left w (file_hashes env.hashes_ok w.repo_id w.table) mine (
          subst (λ i. Hashed w.table (file_hashes env.hashes_ok i w.table)) (sym mine)
            (file_hashes-Hashed env.hashes_ok w.table u)))
