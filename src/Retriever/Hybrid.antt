-- ===== src/Retriever/Hybrid.antt =====
-- deepwiki/internal/retriever/hybrid.go: two searches and their rank fusion. A search that panics
-- has failed, as `run` turns a panic into an error.
pub mod Fusion
use godeepwiki.Common.{
  ℕ, zero, suc, ◌+◌, Bool, true, false, ◌&&◌, ◌||◌, not, String, List, [], ◌∷◌, Option, none, some,
  if◌then◌else◌, ◌==◌, ltb, leb, Result, ok, err,
}
use godeepwiki.Common.Dict.{lookup, insert}
use text.Mathlib.Text.{is_lt}
use Prim.Native.String.{compare}
use godeepwiki.Model.Chunk.{Chunk, context_id}
use godeepwiki.Model.Errors.{Error, wrapped}
use godeepwiki.Retriever.{ChunkHit, Scores, truncate_hits, is_docs}

module _ {S : Type 0} (ops : Scores S) where
  -- The map of rrfFuse: for each context the hit that was seen first, and the sum.
  abbrev pub Merged : Type 0
  Merged = List (String × ChunkHit S)

  -- One hit of a list at a rank counted from 0.
  unfoldable pub add_hit : ℕ → ℕ → ChunkHit S → Merged → Merged
  unfolding lookup insert context_id
  add_hit k rank h merged =
      let key = context_id h.chunk in
      let share = ops.reciprocal (k + rank + 1) in
      elim (lookup key merged) [
        | none ↦ insert key (record { chunk = h.chunk; score = ops.add ops.nothing share }) merged
        | some m ↦ insert key (record { chunk = m.chunk; score = ops.add m.score share }) merged
      ]

  unfoldable pub add_hits : ℕ → ℕ → List (ChunkHit S) → Merged → Merged
  unfolding add_hit
  add_hits k rank [] merged = merged
  add_hits k rank (h ∷ hs) merged = add_hits k (suc rank) hs (add_hit k rank h merged)

  unfoldable pub add_lists : ℕ → List (List (ChunkHit S)) → Merged → Merged
  unfolding add_hits
  add_lists k [] merged = merged
  add_lists k (hs ∷ rest) merged = add_lists k rest (add_hits k 0 hs merged)

  -- m.hit.Score = m.score * langWeight(...), for each entry.
  unfoldable pub weighed : Merged → List (ChunkHit S)
  unfolding is_docs
  weighed [] = []
  weighed ((key, h) ∷ rest) =
      record {
        chunk = h.chunk;
        score = if is_docs h.chunk.language then ops.weigh_docs h.score else h.score;
      }
      ∷ weighed rest

  -- The order of sort.Slice: the higher score, and of equal scores the smaller identifier.
  unfoldable pub ranks_before : ChunkHit S → ChunkHit S → Bool
  ranks_before a b =
      if not (ops.same a.score b.score)
      then ops.above a.score b.score
      else is_lt (compare a.chunk.chunk_id b.chunk.chunk_id)

  unfoldable pub insert_hit : ChunkHit S → List (ChunkHit S) → List (ChunkHit S)
  unfolding ranks_before
  insert_hit h [] = h ∷ []
  insert_hit h (x ∷ xs) =
      let rest = insert_hit h xs in if ranks_before h x then h ∷ x ∷ xs else x ∷ rest

  unfoldable pub sort_hits : List (ChunkHit S) → List (ChunkHit S)
  unfolding insert_hit
  sort_hits [] = []
  sort_hits (h ∷ hs) = insert_hit h (sort_hits hs)

  unfoldable pub rrf_fuse : ℕ → ℕ → List (List (ChunkHit S)) → List (ChunkHit S)
  unfolding add_lists weighed sort_hits truncate_hits
  rrf_fuse k top_k lists =
      let rank_base = if leb k 0 then 60 else k in
      truncate_hits (sort_hits (weighed (add_lists rank_base lists []))) top_k

  abbrev pub Found : Type 0
  Found = Result Error (List (ChunkHit S))

  -- The two searches get the top_k that is in force.
  unfoldable pub search : ℕ → (ℕ → Found) → (ℕ → Found) → ℕ → Found
  unfolding rrf_fuse truncate_hits
  search rrf_k keyword vector top_k =
      let k = if leb top_k 0 then 10 else top_k in
      elim (keyword k) [
        | err e ↦ elim (vector k) [
          | err f ↦ err (wrapped "keyword and vector")
          | ok hits ↦ ok (truncate_hits hits k)
        ]
        | ok kw ↦ elim (vector k) [
          | err f ↦ ok (truncate_hits kw k)
          | ok vec ↦ ok (rrf_fuse rrf_k k (kw ∷ vec ∷ []))
        ]
      ]
