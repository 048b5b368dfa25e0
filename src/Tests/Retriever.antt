-- ===== src/Tests/Retriever.antt =====
-- The theorems on the retrievers at concrete inputs.
use godeepwiki.Common.{
  ℕ, ◌+◌, ◌*◌, ◌/◌, ◌≡◌, refl, ◌≤◌, ◌==◌, String, List, [], ◌∷◌, Result, ok, ltb, count_if, take,
  if◌then◌else◌,
}
use godeepwiki.Model.Chunk.{Chunk, Text}
use godeepwiki.Model.Errors.{Error}
use godeepwiki.Retriever.{ChunkHit, Scores}
use godeepwiki.Retriever.Hybrid.{rrf_fuse}
use godeepwiki.Retriever.Hybrid.Fusion.{in_context, any_in_lists, rrf_fuse_lem}
use godeepwiki.Retriever.Rerank.{rerank}
use godeepwiki.Retriever.Rerank.Sorting.{Ordered}
use godeepwiki.Retriever.Rerank.Ranking.{IsReranked, rerank-IsReranked}

-- Scores in thousandths.
abbrev thousandths : Scores ℕ
thousandths = record {
  nothing = 0;
  reciprocal = λ n. 1000 / n;
  add = λ a b. a + b;
  weigh_docs = λ a. a * 3 / 4;
  same = λ a b. a == b;
  above = λ a b. ltb b a;
}

abbrev chunk_of : String → String → Chunk
chunk_of id parent = record {
  chunk_id = id;
  repo_id = "repo_1";
  path = "main.go";
  start_line = 1;
  end_line = 9;
  language = "go";
  content = [];
  vector = [];
  file_hash = "h";
  embedding_model = "";
  parent_chunk_id = parent;
}

abbrev two_hits : List (ChunkHit ℕ)
two_hits =
    record { chunk = chunk_of "chunk_a" ""; score = 5 }
    ∷ record { chunk = chunk_of "chunk_b" "chunk_a"; score = 3 }
    ∷ []

rrf_fuse_lem_example :
    (count_if (in_context "chunk_a") (rrf_fuse thousandths 60 0 (two_hits ∷ []))
      ≡ (if any_in_lists "chunk_a" (two_hits ∷ []) then 1 else 0))
    × (rrf_fuse thousandths 60 2 (two_hits ∷ [])
        ≡ take 2 (rrf_fuse thousandths 60 0 (two_hits ∷ [])))
    × (count_if (in_context "chunk_a") (rrf_fuse thousandths 60 2 (two_hits ∷ [])) ≤ 1)
rrf_fuse_lem_example = rrf_fuse_lem thousandths 60 1 (two_hits ∷ []) "chunk_a"

thousandths-Ordered : Ordered thousandths
thousandths-Ordered = record { rank = λ s. s; above_rank = λ a b. refl; same_rank = λ a b. refl }

-- "[1,2]"
abbrev rated : String → List (ChunkHit ℕ) → Result Error Text
rated query candidates = ok (91 ∷ 49 ∷ 44 ∷ 50 ∷ 93 ∷ [])

abbrev numbers : Text → Result Error (List ℕ)
numbers text = ok (1 ∷ 2 ∷ [])

rerank-IsReranked_example :
    IsReranked thousandths thousandths-Ordered numbers
      (rated "main" (take 20 two_hits))
      two_hits
      (rerank thousandths rated numbers "main" two_hits)
rerank-IsReranked_example =
    rerank-IsReranked thousandths thousandths-Ordered rated numbers "main" two_hits
