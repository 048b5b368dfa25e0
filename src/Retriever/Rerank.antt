-- ===== src/Retriever/Rerank.antt =====
-- RerankRetriever and LLMReranker (deepwiki/internal/retriever/rerank.go). The language model is the argument
-- `model`, from the query and the candidates in its prompt to its text; `decode` is encoding/json on an
-- array of numbers.
pub mod Sorting
pub mod Ranking
use godeepwiki.Common.{
  ℕ, zero, suc, ◌+◌, ◌*◌, min, Bool, true, false, not, ◌&&◌, ◌||◌, String, List, [], ◌∷◌, ◌++◌, map,
  Option, none, some, if◌then◌else◌, ltb, leb, ◌==◌, length, take, drop, Result, ok, err, ◌>>=◌,
}
use godeepwiki.Model.Chunk.{Text}
use godeepwiki.Model.Errors.{Error, wrapped}
use godeepwiki.Retriever.{ChunkHit, Scores, truncate_hits}

pub record Scored (S : Type 0) : Type 0 where
  pub hit : ChunkHit S
  pub score : S
  pub idx : ℕ

abbrev pub llm_rerank_max_candidates : ℕ
llm_rerank_max_candidates = 20

-- The text after the first '[', with it.
unfoldable pub from_open : Text → Option Text
from_open [] = none
from_open (c ∷ cs) = let rest = from_open cs in if c == 91 then some (c ∷ cs) else rest

-- The text up to the last ']', with it.
unfoldable pub to_close : Text → Option Text
to_close [] = none
to_close (c ∷ cs) = elim (to_close cs) [
  | some rest ↦ some (c ∷ rest)
  | none ↦ if c == 93 then some (c ∷ []) else none
]

-- The outermost brackets; a ']' before the first '[' does not count.
unfoldable pub array_text : Text → Option Text
unfolding from_open to_close
array_text content = elim (from_open content) [ none ↦ none | some rest ↦ to_close rest ]

module _ {S : Type 0} (ops : Scores S) where
  -- The candidates with their scores, and their places from `i` on.
  unfoldable pub scored_from : ℕ → List (ChunkHit S) → List S → List (Scored S)
  scored_from i (h ∷ hs) (s ∷ ss) =
      record { hit = h; score = s; idx = i } ∷ scored_from (suc i) hs ss
  scored_from i [] ss = []
  scored_from i (h ∷ hs) [] = []

  -- The test of the two loops, for `b` behind `a`: `b` is to stand before `a`.
  unfoldable pub beats : Scored S → Scored S → Bool
  beats b a = ops.above b.score a.score || (ops.same b.score a.score && ltb b.idx a.idx)

  -- What the inner loop leaves at its place i, which held `p`, and what it leaves behind it.
  unfoldable pub winner : Scored S → List (Scored S) → Scored S
  unfolding beats
  winner p [] = p
  winner p (x ∷ xs) = winner (if beats x p then x else p) xs

  unfoldable pub losers : Scored S → List (Scored S) → List (Scored S)
  unfolding beats
  losers p [] = []
  losers p (x ∷ xs) = (if beats x p then p else x) ∷ losers (if beats x p then x else p) xs

  -- The outer loop, on what is left; the fuel is its length.
  unfoldable pub exchange : ℕ → List (Scored S) → List (Scored S)
  unfolding winner losers
  exchange zero xs = xs
  exchange (suc fuel) [] = []
  exchange (suc fuel) (x ∷ xs) = winner x xs ∷ exchange fuel (losers x xs)

  abbrev pub rescored : Scored S → ChunkHit S
  rescored s = record s.hit { score = s.score }

  abbrev pub as_many : ℕ → Result Error (List S) → Result Error (List S)
  as_many n (err e) = err (wrapped "llm rerank: parse scores")
  as_many n (ok scores) =
      if length scores == n then ok scores else err (wrapped "llm rerank: another number of scores")

  abbrev pub from_array : (Text → Result Error (List S)) → ℕ → Option Text → Result Error (List S)
  from_array decode n none = err (wrapped "llm rerank: no JSON array in output")
  from_array decode n (some text) = as_many n (decode text)

  unfoldable pub parse_score_array :
      (Text → Result Error (List S)) → Text → ℕ → Result Error (List S)
  unfolding array_text
  parse_score_array decode content n = from_array decode n (array_text content)

  module _ (model : String → List (ChunkHit S) → Result Error Text)
      (decode : Text → Result Error (List S)) where
    abbrev pub considered : List (ChunkHit S) → List (ChunkHit S)
    considered candidates = take llm_rerank_max_candidates candidates

    -- The candidates that the model has scored, in their new order, then the rest.
    abbrev pub reordered : List (ChunkHit S) → List S → List (ChunkHit S)
    reordered candidates scores =
        let ranked = scored_from 0 (considered candidates) scores in
        map rescored (exchange (length ranked) ranked) ++ drop llm_rerank_max_candidates candidates

    abbrev pub scores_of : List (ChunkHit S) → Result Error Text → Result Error (List S)
    scores_of candidates (err e) = err (wrapped "llm rerank generate")
    scores_of candidates (ok content) =
        parse_score_array decode content (length (considered candidates))

    abbrev pub ranked_by :
        List (ChunkHit S) → Result Error (List S) → Result Error (List (ChunkHit S))
    ranked_by candidates (err e) = err e
    ranked_by candidates (ok scores) = ok (reordered candidates scores)

    unfoldable pub rerank : String → List (ChunkHit S) → Result Error (List (ChunkHit S))
    unfolding exchange scored_from parse_score_array
    rerank query candidates =
        ranked_by candidates (scores_of candidates (model query (considered candidates)))

  abbrev pub or_inner : List (ChunkHit S) → Result Error (List (ChunkHit S)) → List (ChunkHit S)
  or_inner candidates (err e) = candidates
  or_inner candidates (ok hits) = hits

  abbrev pub chosen :
      Option (List (ChunkHit S) → Result Error (List (ChunkHit S)))
      → ℕ
      → Result Error (List (ChunkHit S))
      → Result Error (List (ChunkHit S))
  chosen reranker k (err e) = err e
  chosen none k (ok candidates) = ok (truncate_hits candidates k)
  chosen (some f) k (ok candidates) =
      if leb (length candidates) k
      then ok (truncate_hits candidates k)
      else ok (truncate_hits (or_inner candidates (f candidates)) k)

  -- RerankRetriever.SearchWithFilter: four times as many candidates; a reranker that fails leaves
  -- their order.
  unfoldable pub search_reranked :
      (ℕ → Result Error (List (ChunkHit S)))
      → Option (List (ChunkHit S) → Result Error (List (ChunkHit S)))
      → ℕ
      → Result Error (List (ChunkHit S))
  unfolding truncate_hits
  search_reranked inner reranker top_k =
      let k = if leb top_k 0 then 10 else top_k in chosen reranker k (inner (k * 4))
