-- ===== src/Ingest/Chunker/Family.antt =====
-- Parents and children among the blocks of chunker.go.
use godeepwiki.Common.{
  ℕ, suc, ◌+◌, ◌-◌, ◌≤◌, ◌<◌, ◌≡◌, ◌≢◌, subst, ◌⊎◌, inl, inr, Bool, false, String, eq_iff, List, [],
  ◌∷◌, ◌++◌, Option, none, arith, ◌==◌, length, All,
}
use godeepwiki.Model.Chunk.{Chunk, Text, context_id}
use godeepwiki.Ingest.Lines.{split_lines, slice, length-slice}
use godeepwiki.Ingest.Windows.{Span}
use godeepwiki.Ingest.Windows.Cover.{Covered, split_windows-Covered}
use godeepwiki.Ingest.Chunker.{
  SourceFile, IngestOptions, line_windows, effective_size, effective_overlap, boundary_of,
  parent_chunk, child_chunks, family, families, file_chunks,
}
use godeepwiki.Ingest.Chunker.Citations.{InRange, line_windows-InRange, effective_size-pos}

line_windows-Covered :
    (lines : List Text) (size overlap i : ℕ) (b : Option (Text → Bool))
    → 0 < size
    → i < length lines
    → Covered i (line_windows lines size overlap b)
unfolding line_windows
line_windows-Covered lines size overlap i b pos h =
    split_windows-Covered _ _ size overlap (length lines) i pos h

-- A child block among the list has line i of the file, counted from 0.
abbrev pub HasLine : ℕ → List Chunk → Type 0
HasLine i [] = ⊥
HasLine i (c ∷ cs) =
    ((c.parent_chunk_id ≢ "") × (c.start_line ≤ suc i) × (suc i ≤ c.end_line)) ⊎ HasLine i cs

HasLine-left : (i : ℕ) (xs ys : List Chunk) → HasLine i xs → HasLine i (xs ++ ys)
HasLine-left i [] ys h = absurd h
HasLine-left i (x ∷ xs) ys (inl h) = inl h
HasLine-left i (x ∷ xs) ys (inr h) = inr (HasLine-left i xs ys h)

HasLine-right : (i : ℕ) (xs ys : List Chunk) → HasLine i ys → HasLine i (xs ++ ys)
HasLine-right i [] ys h = h
HasLine-right i (x ∷ xs) ys h = inr (HasLine-right i xs ys h)

module _ (new_id : ℕ → String) (repo_id : String) (named : (i : ℕ) → new_id i ≢ "") where
  child_chunks-context_id :
      (f : SourceFile) (lines ls : List Text) (p next : ℕ) (s : Span) (ss : List Span)
      → All
          (λ c. context_id c ≡ new_id p)
          (child_chunks new_id repo_id f (parent_chunk new_id repo_id f lines p s) ls next ss)
  unfolding child_chunks parent_chunk context_id
  child_chunks-context_id f lines ls p next s [] = tt
  child_chunks-context_id f lines ls p next s (c ∷ cs) = (
    ground (arith, eq_iff (new_id p) "", named p),
    child_chunks-context_id f lines ls p (suc next) s cs,
  )

  -- A parent block and all its children belong, in the search's sense, to the parent.
  pub family-context_id :
      (f : SourceFile) (lines : List Text) (next : ℕ) (s : Span)
      → All (λ c. context_id c ≡ new_id next) (family new_id repo_id f lines next s)
  unfolding family parent_chunk context_id
  family-context_id f lines next s =
      (ground (arith, eq_iff "" ""), child_chunks-context_id f lines _ next (suc next) s _)

  child_chunks-HasLine :
      (f : SourceFile) (lines ls : List Text) (p next i : ℕ) (s : Span) (ss : List Span)
      → Covered i ss
      → HasLine
          (s.start + i)
          (child_chunks new_id repo_id f (parent_chunk new_id repo_id f lines p s) ls next ss)
  unfolding child_chunks parent_chunk
  child_chunks-HasLine f lines ls p next i s [] v = absurd v
  child_chunks-HasLine f lines ls p next i s (c ∷ cs) (inl v) =
      inl (named p, omega (arith, v.0), omega (arith, v.1))
  child_chunks-HasLine f lines ls p next i s (c ∷ cs) (inr v) =
      inr (child_chunks-HasLine f lines ls p (suc next) i s cs v)

  family-HasLine :
      (f : SourceFile) (lines : List Text) (next i : ℕ) (s : Span)
      → InRange (length lines) s
      → s.start ≤ i
      → i < s.stop
      → HasLine i (family new_id repo_id f lines next s)
  unfolding family
  family-HasLine f lines next i s h lo hi =
      let q : s.start + (i - s.start) ≡ i = omega arith in
      let ls = slice s.start s.stop lines in
      let spans = line_windows ls 300 40 none in
      let children =
        child_chunks new_id repo_id f (parent_chunk new_id repo_id f lines next s) ls (suc next)
          spans in
      inr (
        subst (λ k. HasLine k children) q
          (child_chunks-HasLine f lines ls next (suc next) (i - s.start) s spans (
            line_windows-Covered (slice s.start s.stop lines) 300 40 (i - s.start) none
              (omega arith) (omega (arith, length-slice s.start s.stop lines h.1)))))

  families-HasLine :
      (f : SourceFile) (lines : List Text) (next i : ℕ) (ss : List Span)
      → All (InRange (length lines)) ss
      → Covered i ss
      → HasLine i (families new_id repo_id f lines next ss)
  unfolding families
  families-HasLine f lines next i [] h v = absurd v
  families-HasLine f lines next i (s ∷ ss) h (inl v) =
      HasLine-left i (family new_id repo_id f lines next s) _
        (family-HasLine f lines next i s h.0 v.0 v.1)
  families-HasLine f lines next i (s ∷ ss) h (inr v) =
      HasLine-right i (family new_id repo_id f lines next s) _
        (families-HasLine f lines (next + length (family new_id repo_id f lines next s)) i ss h.1 v)

  -- Every line of a file that is not empty is in a child block: no line escapes the search.
  pub file_chunks-HasLine :
      (opts : IngestOptions) (f : SourceFile) (next i : ℕ)
      → 0 < length f.content
      → i < length (split_lines f.content)
      → HasLine i (file_chunks new_id repo_id opts f next)
  unfolding file_chunks
  file_chunks-HasLine opts f next i pos h =
      let full : (length f.content == 0) ≡ false = ground arith in
      rw full (
        families-HasLine f (split_lines f.content) next i _
          (line_windows-InRange (split_lines f.content) (effective_size opts)
            (effective_overlap opts) (boundary_of f) (effective_size-pos opts))
          (line_windows-Covered (split_lines f.content) (effective_size opts)
            (effective_overlap opts) i (boundary_of f) (effective_size-pos opts) h))
