-- ===== src/Retriever.antt =====
-- deepwiki/internal/retriever: hits, and what the retrievers share. A score is a float64 in Go; here
-- its arithmetic is an interface, so that no law of exact numbers is taken for granted.
pub mod Hybrid
pub mod Keyword
pub mod Rerank
use godeepwiki.Common.{
  ℕ, suc, ◌+◌, Bool, true, false, ◌&&◌, ◌||◌, String, List, [], ◌∷◌, if◌then◌else◌, ◌==◌, ltb, leb,
  length, take,
}
use Prim.Native.Char.{code}
use godeepwiki.Model.Chunk.{Chunk}

-- model.ChunkHit
pub record ChunkHit (S : Type 0) : Type 0 where
  pub chunk : Chunk
  pub score : S

-- What the retrievers ask of float64: 0, 1/n, the sum, the factor for documents, `==`
-- and `>`.
pub record Scores (S : Type 0) : Type 0 where
  pub nothing : S
  pub reciprocal : ℕ → S
  pub add : S → S → S
  pub weigh_docs : S → S
  pub same : S → S → Bool
  pub above : S → S → Bool

-- topK ≤ 0: no cut.
unfoldable pub truncate_hits : {S : Type 0} → List (ChunkHit S) → ℕ → List (ChunkHit S)
truncate_hits hits top_k = if ltb 0 top_k && ltb top_k (length hits) then take top_k hits else hits

abbrev codes : String → List ℕ
codes String.[] = []
codes (String.◌∷◌ c s) = code c ∷ codes s

-- strings.ToLower as far as the comparison below sees it: of the letters outside ASCII only the
-- Kelvin sign and the capital I with a dot have a lower case inside ASCII.
abbrev lower : ℕ → ℕ
lower c =
    if leb 65 c && leb c 90 then c + 32 else if c == 8490 then 107 else if c == 304 then 105 else c

abbrev same_lower : List ℕ → List ℕ → Bool
same_lower [] [] = true
same_lower (c ∷ cs) (d ∷ ds) = lower c == d && same_lower cs ds
same_lower _ _ = false

abbrev is_one_of : List ℕ → List String → Bool
is_one_of cs [] = false
is_one_of cs (s ∷ ss) = same_lower cs (codes s) || is_one_of cs ss

-- langWeight is 0.75: a document, or a text of no language.
unfoldable pub is_docs : String → Bool
is_docs lang =
    is_one_of (codes lang) ("markdown" ∷ "md" ∷ "text" ∷ "txt" ∷ "rst" ∷ "adoc" ∷ "html" ∷ "" ∷ [])
