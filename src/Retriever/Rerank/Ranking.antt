-- ===== src/Retriever/Rerank/Ranking.antt =====
-- What Rerank (deepwiki/internal/retriever/rerank.go) makes of the text of the model.
use mathlib.Core.List.{Perm}
use godeepwiki.Common.{
  ℕ, ◌≡◌, refl, subst, sym, String, List, ◌++◌, map, if◌then◌else◌, ◌==◌, Bool-cases, inl, inr,
  length, take, drop, arith, Result, ok, err, Option, none, some, ==_iff, ◌≢◌,
}
use godeepwiki.Model.Chunk.{Text}
use godeepwiki.Model.Errors.{Error, wrapped}
use godeepwiki.Retriever.{ChunkHit, Scores}
use godeepwiki.Retriever.Rerank.{
  Scored, scored_from, exchange, rescored, considered, llm_rerank_max_candidates, array_text,
  as_many, from_array, parse_score_array, scores_of, ranked_by, rerank,
}
use godeepwiki.Retriever.Rerank.Sorting.{Ordered, IsRanked, exchange-perm, exchange-IsRanked}

module _ {S : Type 0} (ops : Scores S) (ordered : Ordered ops) where
  -- What the model's text holds: as many numbers as there are candidates, or no such array.
  abbrev pub Parsed :
      (Text → Result Error (List S)) → Result Error Text → ℕ → Result Error (List S) → Type 0
  Parsed decode reply n (ok scores) =
      (content text : Text) × (reply ≡ ok content)
      × (array_text content ≡ some text)
      × (decode text ≡ ok scores)
      × (length scores ≡ n)
  Parsed decode reply n (err e) =
      (content text : Text) (scores : List S)
      → reply ≡ ok content
      → array_text content ≡ some text
      → decode text ≡ ok scores
      → length scores ≢ n

  as_many-Parsed :
      (decode : Text → Result Error (List S)) (content text : Text) (n : ℕ)
      (answer : Result Error (List S))
      → array_text content ≡ some text
      → decode text ≡ answer
      → Parsed decode (ok content) n (as_many ops n answer)
  as_many-Parsed decode content text n (err e) has bad =
      λ c t ss is has' got. absurd (ground (arith, is, has, has', bad, got))
  as_many-Parsed decode content text n (ok scores) has got =
      elim (Bool-cases (length scores == n)) [
        | inl fits ↦
            subst
              (λ b.
                Parsed decode (ok content) n
                  (if b then ok scores else err (wrapped "llm rerank: another number of scores")))
              (sym fits) (content, text, refl, has, got, (==_iff (length scores) n).0 fits)
        | inr other ↦
            subst
              (λ b.
                Parsed decode (ok content) n
                  (if b then ok scores else err (wrapped "llm rerank: another number of scores")))
              (sym other)
              (λ c t ss is has' got' same. ground (arith, is, has, has', got, got', same, other))
      ]

  from_array-Parsed :
      (decode : Text → Result Error (List S)) (content : Text) (n : ℕ) (array : Option Text)
      → array_text content ≡ array
      → Parsed decode (ok content) n (from_array ops decode n array)
  from_array-Parsed decode content n none bare =
      λ c t ss is has got. absurd (ground (arith, is, bare, has))
  from_array-Parsed decode content n (some text) has =
      as_many-Parsed decode content text n (decode text) has refl

  scores_of-Parsed :
      (model : String → List (ChunkHit S) → Result Error Text)
      (decode : Text → Result Error (List S)) (candidates : List (ChunkHit S))
      (reply : Result Error Text)
      → Parsed decode reply
          (length (considered ops model decode candidates))
          (scores_of ops model decode candidates reply)
  unfolding parse_score_array
  scores_of-Parsed model decode candidates (err e) = λ c t ss is has got. absurd (cc)
  scores_of-Parsed model decode candidates (ok content) =
      from_array-Parsed decode content (length (considered ops model decode candidates))
        (array_text content) refl

  -- The scored candidates in their new order, and behind them those that were not scored.
  abbrev pub IsReordered : List (ChunkHit S) → List S → List (ChunkHit S) → Type 0
  IsReordered candidates scores out =
      (ranked : List (Scored S)) × Perm ranked
        (scored_from ops 0 (take llm_rerank_max_candidates candidates) scores)
      × IsRanked ops ordered ranked
      × (out ≡ map (rescored ops) ranked ++ drop llm_rerank_max_candidates candidates)

  abbrev pub IsReranked :
      (Text → Result Error (List S))
      → Result Error Text
      → List (ChunkHit S)
      → Result Error (List (ChunkHit S))
      → Type 0
  IsReranked decode reply candidates (ok out) =
      (scores : List S) × Parsed decode reply (length (take llm_rerank_max_candidates candidates))
        (ok scores)
      × IsReordered candidates scores out
  IsReranked decode reply candidates (err e) =
      Parsed decode reply (length (take llm_rerank_max_candidates candidates)) (err e)

  ranked_by-IsReranked :
      (model : String → List (ChunkHit S) → Result Error Text)
      (decode : Text → Result Error (List S)) (candidates : List (ChunkHit S))
      (reply : Result Error Text) (answer : Result Error (List S))
      → Parsed decode reply (length (take llm_rerank_max_candidates candidates)) answer
      → IsReranked decode reply candidates (ranked_by ops model decode candidates answer)
  ranked_by-IsReranked model decode candidates reply (err e) parsed = parsed
  ranked_by-IsReranked model decode candidates reply (ok scores) parsed =
      let given = scored_from ops 0 (take llm_rerank_max_candidates candidates) scores in
      (
        scores,
        parsed,
        (
          exchange ops (length given) given,
          exchange-perm ops ordered (length given) given,
          exchange-IsRanked ops ordered (length given) given (omega arith),
          refl,
        ),
      )

  -- Rerank succeeds when the text of the model holds, between its first '[' and its last ']', as
  -- many numbers as candidates were shown to it, and only then. The first twenty candidates are then
  -- put into the order of these scores, the higher ones first and equal ones as they were, each once
  -- and with its new score; the other candidates follow unchanged. Scores are ordered as numbers.
  pub rerank-IsReranked :
      (model : String → List (ChunkHit S) → Result Error Text)
      (decode : Text → Result Error (List S)) (query : String) (candidates : List (ChunkHit S))
      → IsReranked decode
          (model query (take llm_rerank_max_candidates candidates))
          candidates
          (rerank ops model decode query candidates)
  unfolding rerank
  rerank-IsReranked model decode query candidates =
      let reply = model query (take llm_rerank_max_candidates candidates) in
      ranked_by-IsReranked model decode candidates reply
        (scores_of ops model decode candidates reply)
        (scores_of-Parsed model decode candidates reply)
