-- ===== src/Ingest/Chunker/Citations.antt =====
-- The line numbers that a block of chunker.go carries are those of its text.
use godeepwiki.Common.{
  ℕ, zero, suc, ◌+◌, ◌-◌, ◌≤◌, ◌<◌, ◌≡◌, refl, ap, inl, inr, Bool, String, List, [], ◌∷◌, Option,
  none, arith, Bool-cases, ◌==◌, length, All, All-append,
}
use godeepwiki.Model.Chunk.{Chunk, Text}
use godeepwiki.Ingest.Lines.{split_lines, join_lines, slice, length-slice, slice-slice}
use godeepwiki.Ingest.Windows.{Span, split_windows}
use godeepwiki.Ingest.Windows.Cover.{IsChain, split_windows-IsChain}
use godeepwiki.Ingest.Chunker.{
  SourceFile, IngestOptions, line_windows, effective_size, effective_overlap, boundary_of,
  parent_chunk, child_chunks, family, families, file_chunks,
}

abbrev pub InRange : ℕ → Span → Type 0
InRange n s = (s.start < s.stop) × (s.stop ≤ n)

chain-InRange :
    (tok : ℕ → ℕ) (bound : ℕ → Bool) (size overlap n : ℕ) (ss : List Span)
    → IsChain tok bound size overlap n ss
    → All (InRange n) ss
chain-InRange tok bound size overlap n [] c = tt
chain-InRange tok bound size overlap n (s ∷ ss) c =
    ((c.0.nonempty, c.0.within), chain-InRange tok bound size overlap n ss c.2)

windows-InRange :
    (tok : ℕ → ℕ) (bound : ℕ → Bool) (size overlap n : ℕ)
    → 0 < size
    → All (InRange n) (split_windows tok bound size overlap n)
windows-InRange tok bound size overlap zero pos = unfold split_windows in tt
windows-InRange tok bound size overlap (suc n) pos =
    chain-InRange tok bound size overlap (suc n) _
      (split_windows-IsChain tok bound size overlap (suc n) pos (omega arith)).0

pub line_windows-InRange :
    (lines : List Text) (size overlap : ℕ) (b : Option (Text → Bool))
    → 0 < size
    → All (InRange (length lines)) (line_windows lines size overlap b)
unfolding line_windows
line_windows-InRange lines size overlap b pos = windows-InRange _ _ size overlap (length lines) pos

pub effective_size-pos : (opts : IngestOptions) → 0 < effective_size opts
unfolding effective_size
effective_size-pos opts = ground arith

-- The block names a range of lines of the file, counted from 1, and has the text of these lines.
abbrev pub IsCitation : SourceFile → List Text → Chunk → Type 0
IsCitation f lines c =
    (c.path ≡ f.path)
    × (0 < c.start_line)
    × (c.start_line ≤ c.end_line)
    × (c.end_line ≤ length lines)
    × (c.content ≡ join_lines (slice (c.start_line - 1) c.end_line lines))

module _ (new_id : ℕ → String) (repo_id : String) where
  parent_chunk-IsCitation :
      (f : SourceFile) (lines : List Text) (next : ℕ) (s : Span)
      → InRange (length lines) s
      → IsCitation f lines (parent_chunk new_id repo_id f lines next s)
  unfolding parent_chunk
  parent_chunk-IsCitation f lines next s h =
      let q : s.start + 1 - 1 ≡ s.start = omega arith in
      (refl, omega arith, omega arith, omega arith, rw q)

  child_chunks-IsCitation :
      (f : SourceFile) (lines : List Text) (p next : ℕ) (s : Span) (ss : List Span)
      → InRange (length lines) s
      → All (InRange (length (slice s.start s.stop lines))) ss
      → All (IsCitation f lines) (
          child_chunks new_id repo_id f
            (parent_chunk new_id repo_id f lines p s)
            (slice s.start s.stop lines)
            next
            ss)
  unfolding child_chunks parent_chunk
  child_chunks-IsCitation f lines p next s [] h hs = tt
  child_chunks-IsCitation f lines p next s (c ∷ cs) h hs =
      let len = length-slice s.start s.stop lines h.1 in
      let from : s.start + 1 + c.start - 1 ≡ s.start + c.start = omega arith in
      let to : s.start + 1 + c.stop - 1 ≡ s.start + c.stop = omega arith in
      (
        (
          refl,
          omega arith,
          omega (arith, hs.0),
          omega (arith, hs.0, len),
          rw (from, to)
              (ap join_lines
                (slice-slice s.start s.stop c.start c.stop lines (omega (arith, hs.0, len)))),
        ),
        child_chunks-IsCitation f lines p (suc next) s cs h hs.1,
      )

  families-IsCitation :
      (f : SourceFile) (lines : List Text) (next : ℕ) (ss : List Span)
      → All (InRange (length lines)) ss
      → All (IsCitation f lines) (families new_id repo_id f lines next ss)
  unfolding families
  families-IsCitation f lines next [] h = tt
  families-IsCitation f lines next (s ∷ ss) h =
      All-append (IsCitation f lines) (family new_id repo_id f lines next s) _
        (
          parent_chunk-IsCitation f lines next s h.0,
          child_chunks-IsCitation f lines next (suc next) s _ h.0
              (line_windows-InRange (slice s.start s.stop lines) 300 40 none (omega arith)),
        )
        (families-IsCitation f lines (next + length (family new_id repo_id f lines next s)) ss h.1)

  -- Every block of a file, parent or child, names a range of lines of the file that is not empty,
  -- and its text is exactly those lines.
  pub file_chunks-IsCitation :
      (opts : IngestOptions) (f : SourceFile) (next : ℕ)
      → All (IsCitation f (split_lines f.content)) (file_chunks new_id repo_id opts f next)
  unfolding file_chunks
  file_chunks-IsCitation opts f next = elim (Bool-cases (length f.content == 0)) [
    | inl empty ↦ rw empty tt
    | inr full ↦ rw full (
        families-IsCitation f (split_lines f.content) next _ (
          line_windows-InRange (split_lines f.content) (effective_size opts)
            (effective_overlap opts) (boundary_of f) (effective_size-pos opts)))
  ]
