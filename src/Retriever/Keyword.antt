-- ===== src/Retriever/Keyword.antt =====
-- deepwiki/internal/retriever/keyword.go: hits of the text index, filled in from the chunk store.
-- `get_by_ids` is GetByIDs of the store and `search_index` the query to OpenSearch; the check of the
-- identifier's form and of the context come as Booleans.
pub mod Backfill
use godeepwiki.Common.{
  ℕ, Bool, true, false, not, ◌||◌, ◌==◌, String, List, [], ◌∷◌, ◌++◌, Option, none, some,
  if◌then◌else◌, leb, Result, ok, err, str_eq, map,
}
use godeepwiki.Common.Dict.{lookup, insert}
use godeepwiki.Model.Chunk.{Chunk}
use godeepwiki.Model.Errors.{Error, wrapped, search_unavailable, context_canceled}
use godeepwiki.Retriever.{ChunkHit}

-- A hit of the index: an identifier and a score.
pub record IndexHit (S : Type 0) : Type 0 where
  pub chunk_id : String
  pub score : S

abbrev pub is_in : String → List String → Bool
is_in x [] = false
is_in x (y ∷ ys) = str_eq x y || is_in x ys

-- The map from identifier to chunk; of two with one identifier the later stays.
unfoldable pub by_id : List Chunk → List (String × Chunk) → List (String × Chunk)
unfolding insert
by_id [] m = m
by_id (c ∷ cs) m = by_id cs (insert c.chunk_id c m)

module _ {S : Type 0} where
  -- The parents to look up, each once, in the order of the hits.
  unfoldable pub parent_ids : List (String × Chunk) → List (IndexHit S) → List String → List String
  unfolding lookup
  parent_ids children [] seen = []
  parent_ids children (h ∷ hs) seen =
      let rest = parent_ids children hs in
      elim (lookup h.chunk_id children) [
        | none ↦ rest seen
        | some c ↦
            if str_eq c.parent_chunk_id "" || is_in c.parent_chunk_id seen
            then rest seen
            else c.parent_chunk_id ∷ rest (c.parent_chunk_id ∷ seen)
      ]

  -- The parent block that a hit stands for, if the stores have it.
  unfoldable pub parent_of :
      List (String × Chunk) → List (String × Chunk) → IndexHit S → Option (String × Chunk)
  unfolding lookup
  parent_of children parents h = elim (lookup h.chunk_id children) [
    | none ↦ none
    | some c ↦
        if str_eq c.parent_chunk_id "" then none else elim (lookup c.parent_chunk_id parents) [
          | none ↦ none
          | some p ↦ some (c.parent_chunk_id, p)
        ]
  ]

  -- The last loop: each parent at its first hit, with the score of that hit.
  unfoldable pub emit :
      List (String × Chunk)
      → List (String × Chunk)
      → List (IndexHit S)
      → List String
      → List (ChunkHit S)
  unfolding parent_of
  emit children parents [] emitted = []
  emit children parents (h ∷ hs) emitted =
      let rest = emit children parents hs in
      elim (parent_of children parents h) [
        | none ↦ rest emitted
        | some (id, p) ↦
            if is_in id emitted
            then rest emitted
            else record { chunk = p; score = h.score } ∷ rest (id ∷ emitted)
      ]

  unfoldable pub search_with_path :
      Bool
      → Bool
      → (ℕ → Result Error (List (IndexHit S)))
      → (List String → Result Error (List Chunk))
      → ℕ
      → Result Error (List (ChunkHit S))
  unfolding by_id parent_ids emit
  search_with_path id_ok context_ok search_index get_by_ids top_k =
      if not id_ok
      then err (wrapped "invalid repo_id format")
      else elim (search_index (if leb top_k 0 then 10 else top_k)) [
        | err e ↦ err search_unavailable
        | ok [] ↦ ok []
        | ok (h ∷ hs) ↦
            if not context_ok
            then err context_canceled
            else elim (get_by_ids (map (λ x. x.chunk_id) (h ∷ hs))) [
              | err e ↦ err (wrapped "backfill chunks")
              | ok children ↦ elim (get_by_ids (parent_ids (by_id children []) (h ∷ hs) [])) [
                | err e ↦ err (wrapped "backfill parent chunks")
                | ok parents ↦ ok (emit (by_id children []) (by_id parents []) (h ∷ hs) [])
              ]
            ]
      ]
