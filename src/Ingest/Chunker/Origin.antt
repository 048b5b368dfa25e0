-- ===== src/Ingest/Chunker/Origin.antt =====
-- Which file a block of ChunkFiles (deepwiki/internal/ingest/chunker.go) is from.
use godeepwiki.Common.{
  ℕ, suc, ◌+◌, ◌≡◌, refl, Bool, String, List, [], ◌∷◌, Bool-cases, inl, inr, All, All-append,
  Result, ok, err, length, ◌==◌,
}
use godeepwiki.Model.Chunk.{Chunk, Text}
use godeepwiki.Model.Errors.{Error}
use godeepwiki.Ingest.Windows.{Span}
use godeepwiki.Ingest.Chunker.{
  SourceFile, IngestOptions, parent_chunk, child_chunk, child_chunks, family, families, file_chunks,
  chunk_files_from,
}

module _ (new_id : ℕ → String) (repo_id : String) where
  -- The block is of the repository, and has the path and the hash of the file.
  abbrev pub IsFrom : SourceFile → Chunk → Type 0
  IsFrom f c = (c.repo_id ≡ repo_id) × (c.path ≡ f.path) × (c.file_hash ≡ f.hash)

  child_chunks-IsFrom :
      (f : SourceFile) (p : Chunk) (lines : List Text) (next : ℕ) (ss : List Span)
      → All (IsFrom f) (child_chunks new_id repo_id f p lines next ss)
  unfolding child_chunks child_chunk
  child_chunks-IsFrom f p lines next [] = tt
  child_chunks-IsFrom f p lines next (s ∷ ss) =
      ((refl, refl, refl), child_chunks-IsFrom f p lines (suc next) ss)

  family-IsFrom :
      (f : SourceFile) (lines : List Text) (next : ℕ) (s : Span)
      → All (IsFrom f) (family new_id repo_id f lines next s)
  unfolding family parent_chunk
  family-IsFrom f lines next s = (
    (refl, refl, refl),
    child_chunks-IsFrom f (parent_chunk new_id repo_id f lines next s) _ (suc next) _,
  )

  families-IsFrom :
      (f : SourceFile) (lines : List Text) (next : ℕ) (ss : List Span)
      → All (IsFrom f) (families new_id repo_id f lines next ss)
  unfolding families
  families-IsFrom f lines next [] = tt
  families-IsFrom f lines next (s ∷ ss) =
      All-append (IsFrom f) (family new_id repo_id f lines next s) _ (family-IsFrom f lines next s)
        (families-IsFrom f lines (next + length (family new_id repo_id f lines next s)) ss)

  pub file_chunks-IsFrom :
      (opts : IngestOptions) (f : SourceFile) (next : ℕ)
      → All (IsFrom f) (file_chunks new_id repo_id opts f next)
  unfolding file_chunks
  file_chunks-IsFrom opts f next = elim (Bool-cases (length f.content == 0)) [
    | inl empty ↦ rw empty tt
    | inr full ↦ rw full (families-IsFrom f _ next _)
  ]

  -- Each block satisfies `P` if the blocks of each file do.
  abbrev AllFiles : (Chunk → Type 0) → IngestOptions → List SourceFile → Type 0
  AllFiles P opts = All (λ f. (next : ℕ) → All P (file_chunks new_id repo_id opts f next))

  abbrev AllOk : (Chunk → Type 0) → Result Error (List Chunk) → Type 0
  AllOk P (ok cs) = All P cs
  AllOk P (err e) = Unit {0}

  pub chunk_files_from-All :
      (P : Chunk → Type 0) (cancelled : ℕ → Bool) (opts : IngestOptions) (i next : ℕ)
      (chunks : List Chunk) (fs : List SourceFile)
      → All P chunks
      → AllFiles P opts fs
      → AllOk P (chunk_files_from new_id repo_id cancelled opts i next chunks fs)
  unfolding chunk_files_from
  chunk_files_from-All P cancelled opts i next chunks [] before each = before
  chunk_files_from-All P cancelled opts i next chunks (f ∷ fs) before each =
      elim (Bool-cases (cancelled i)) [
        | inl stop ↦ rw stop tt
        | inr goes ↦ rw goes (
            chunk_files_from-All P cancelled opts (suc i) _ _ fs
              (All-append P chunks _ before (each.0 next)) each.1)
      ]
