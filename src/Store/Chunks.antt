-- ===== src/Store/Chunks.antt =====
-- pgChunkStore (deepwiki/internal/store/chunk_store.go) and validateID (store/postgres.go). The `chunks`
-- table is the list of its rows in the order of insertion; a vector that is not there is the empty
-- one. `db_ok` says whether the database carries the statement out.
pub mod Batches
use Prim.Native.Char.{code}
use Prim.Native.String.{String}
use godeepwiki.Common.{
  ℕ, zero, suc, Bool, true, false, not, ◌&&◌, ◌||◌, List, [], ◌∷◌, ◌++◌, Option, none, some, str_eq,
  if◌then◌else◌, ◌==◌, leb, length, take, drop, select, count_if, Result, ok, err,
}
use godeepwiki.Common.Dict.{lookup, insert}
use godeepwiki.Model.Chunk.{Chunk}
use godeepwiki.Model.Errors.{Error, wrapped}

abbrev codes : String → List ℕ
codes String.[] = []
codes (String.◌∷◌ c s) = code c ∷ codes s

-- 0-9, and A-Z without I, L, O and U.
unfoldable pub is_crockford : ℕ → Bool
is_crockford c =
    leb 48 c && leb c 57
    || (leb 65 c && leb c 90 && not (c == 73 || (c == 76 || (c == 79 || c == 85))))

abbrev all_crockford : List ℕ → Bool
all_crockford [] = true
all_crockford (c ∷ cs) = is_crockford c && all_crockford cs

-- The rest of a text after a prefix.
abbrev without_prefix : List ℕ → List ℕ → Option (List ℕ)
without_prefix [] cs = some cs
without_prefix (p ∷ ps) [] = none
without_prefix (p ∷ ps) (c ∷ cs) = let rest = without_prefix ps cs in if p == c then rest else none

abbrev is_id_after : String → List ℕ → Bool
is_id_after prefix cs = elim (without_prefix (codes prefix) cs) [
  | none ↦ false
  | some rest ↦ length rest == 26 && all_crockford rest
]

-- ^(tsk_|repo_|chk_|key_)[0-9A-HJKMNP-TV-Z]{26}$
unfoldable pub valid_id : String → Bool
unfolding is_crockford
valid_id id =
    let cs = codes id in
    is_id_after "tsk_" cs
    || (is_id_after "repo_" cs || (is_id_after "chk_" cs || is_id_after "key_" cs))

-- repoIDRegex of service/ingest_service.go
unfoldable pub valid_repo_id : String → Bool
unfolding is_crockford
valid_repo_id id = is_id_after "repo_" (codes id)

abbrev pub invalid_id : Error
invalid_id = wrapped "invalid id format"

unfoldable pub all_valid : List Chunk → Bool
all_valid [] = true
all_valid (c ∷ cs) = valid_id c.chunk_id && (valid_id c.repo_id && all_valid cs)

abbrev pub chunk_batch_size : ℕ
chunk_batch_size = 500

-- The loop over the batches: `batch_ok i` is about the i-th INSERT. One that is refused ends the
-- loop, and those before it stay. The fuel is the number of rows that are left at most.
unfoldable pub insert_batches :
    (ℕ → Bool) → ℕ → ℕ → List Chunk → List Chunk → Result Error (Unit {0}) × List Chunk
insert_batches batch_ok fuel i [] table = (ok tt, table)
insert_batches batch_ok zero i (c ∷ cs) table = (ok tt, table)
insert_batches batch_ok (suc fuel) i (c ∷ cs) table =
    let rest =
      insert_batches batch_ok fuel (suc i) (drop chunk_batch_size (c ∷ cs))
        (table ++ take chunk_batch_size (c ∷ cs)) in
    if batch_ok i then rest else (err (wrapped "insert chunks"), table)

unfoldable pub insert_batch :
    (ℕ → Bool) → List Chunk → List Chunk → Result Error (Unit {0}) × List Chunk
unfolding all_valid insert_batches
insert_batch batch_ok chunks table =
    if all_valid chunks
    then insert_batches batch_ok (length chunks) 0 chunks table
    else (err invalid_id, table)

abbrev pub of_repo : String → Chunk → Bool
of_repo repo_id c = str_eq c.repo_id repo_id

unfoldable pub is_among : String → List String → Bool
is_among p [] = false
is_among p (x ∷ xs) = str_eq x p || is_among p xs

unfoldable pub get_by_id : Bool → String → List Chunk → Result Error Chunk
get_by_id db_ok id table =
    if not (valid_id id)
    then err invalid_id
    else if not db_ok
    then err (wrapped "select chunk")
    else elim (select (λ c. str_eq c.chunk_id id) table) [
      | [] ↦ err (wrapped "no rows")
      | c ∷ cs ↦ ok c
    ]

abbrev all_valid_ids : List String → Bool
all_valid_ids [] = true
all_valid_ids (id ∷ ids) = valid_id id && all_valid_ids ids

unfoldable pub get_by_ids : Bool → List String → List Chunk → Result Error (List Chunk)
unfolding is_among
get_by_ids db_ok ids table =
    if not (all_valid_ids ids)
    then err invalid_id
    else if db_ok
    then ok (select (λ c. is_among c.chunk_id ids) table)
    else err (wrapped "select chunks")

unfoldable pub delete_by_repo : Bool → String → List Chunk → Result Error (Unit {0}) × List Chunk
delete_by_repo db_ok repo_id table =
    if not (valid_id repo_id)
    then (err invalid_id, table)
    else if db_ok
    then (ok tt, select (λ c. not (of_repo repo_id c)) table)
    else (err (wrapped "delete chunks"), table)

unfoldable pub delete_by_paths :
    Bool → String → List String → List Chunk → Result Error (Unit {0}) × List Chunk
unfolding is_among
delete_by_paths db_ok repo_id paths table =
    if not (valid_id repo_id)
    then (err invalid_id, table)
    else if length paths == 0
    then (ok tt, table)
    else if db_ok
    then (ok tt, select (λ c. not (of_repo repo_id c && is_among c.path paths)) table)
    else (err (wrapped "delete chunks"), table)

-- A map from path to hash; the first row of a path decides.
unfoldable pub hashes_from : List Chunk → List (String × String) → List (String × String)
unfolding lookup insert
hashes_from [] m = m
hashes_from (c ∷ cs) m =
    hashes_from cs (elim (lookup c.path m) [ none ↦ insert c.path c.file_hash m | some h ↦ m ])

unfoldable pub file_hashes : Bool → String → List Chunk → Result Error (List (String × String))
unfolding hashes_from
file_hashes db_ok repo_id table =
    if not (valid_id repo_id)
    then err invalid_id
    else if db_ok
    then ok (hashes_from (select (of_repo repo_id) table) [])
    else err (wrapped "select hashes")

unfoldable pub count_by_repo : Bool → String → List Chunk → Result Error ℕ
count_by_repo db_ok repo_id table =
    if not (valid_id repo_id)
    then err invalid_id
    else if db_ok
    then ok (count_if (of_repo repo_id) table)
    else err (wrapped "count chunks")
