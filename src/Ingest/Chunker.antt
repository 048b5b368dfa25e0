-- ===== src/Ingest/Chunker.antt =====
-- deepwiki/internal/ingest/chunker.go: files into parent blocks and, inside each, child blocks.
-- `new_id i` is the i-th identifier that newChunkID makes in this run (a ULID under a prefix); the
-- counter goes along. `cancelled i` says whether the context is done at the i-th file.
pub mod Citations
pub mod Family
pub mod Origin
use godeepwiki.Common.{
  ℕ, zero, suc, ◌+◌, ◌-◌, ◌/◌, ◌<◌, Bool, true, false, ◌&&◌, ◌||◌, not, String, List, [], ◌∷◌, ◌++◌,
  Option, none, some, str_eq, if◌then◌else◌, ◌==◌, ltb, leb, length, get_elem?, Result, ok, err,
}
use godeepwiki.Model.Chunk.{Chunk, Text}
use godeepwiki.Model.Errors.{Error, context_canceled}
use godeepwiki.Ingest.Lines.{split_lines, join_lines, slice}
use godeepwiki.Ingest.Windows.{Span, split_windows}

pub record SourceFile : Type 0 where
  pub path : String
  pub language : String
  pub content : Text
  pub hash : String

pub record IngestOptions : Type 0 where
  pub chunk_size : ℕ
  pub chunk_overlap : ℕ
  pub include_ext : List String
  pub exclude_dirs : List String

-- A quarter of the characters, rounded up.
unfoldable pub estimate_tokens : Text → ℕ
estimate_tokens s = (length s + 3) / 4

-- The number of leading '#'.
abbrev pub hashes : Text → ℕ
hashes [] = 0
hashes (c ∷ cs) = let rest = hashes cs in if c == b'#' then suc rest else 0

unfoldable pub is_markdown_heading : Text → Bool
is_markdown_heading line =
    let i = hashes line in
    if i == 0 || ltb 6 i
    then false
    else i == length line || (elim (get_elem? line i) [ none ↦ false | some c ↦ c == b' ' ])

abbrev line_tokens : List Text → ℕ → ℕ
line_tokens lines i = elim (get_elem? lines i) [ none ↦ 0 | some l ↦ estimate_tokens l ]

-- boundary != nil && boundary(lines[i])
abbrev line_bound : Option (Text → Bool) → List Text → ℕ → Bool
line_bound none lines i = false
line_bound (some b) lines i = elim (get_elem? lines i) [ none ↦ false | some l ↦ b l ]

unfoldable pub line_windows : List Text → ℕ → ℕ → Option (Text → Bool) → List Span
unfolding split_windows estimate_tokens
line_windows lines size overlap boundary =
    split_windows (line_tokens lines) (line_bound boundary lines) size overlap (length lines)

unfoldable pub effective_size : IngestOptions → ℕ
effective_size opts = if leb opts.chunk_size 0 then 500 else opts.chunk_size

unfoldable pub effective_overlap : IngestOptions → ℕ
unfolding effective_size
effective_overlap opts =
    if leb (effective_size opts) opts.chunk_overlap
    then effective_size opts / 2
    else opts.chunk_overlap

abbrev pub child_window_tokens : ℕ
child_window_tokens = 300

abbrev pub child_overlap_tokens : ℕ
child_overlap_tokens = 40

unfoldable pub boundary_of : SourceFile → Option (Text → Bool)
unfolding is_markdown_heading
boundary_of f = if str_eq f.language "markdown" then some is_markdown_heading else none

module _ (new_id : ℕ → String) (repo_id : String) where
  unfoldable pub parent_chunk : SourceFile → List Text → ℕ → Span → Chunk
  unfolding join_lines
  parent_chunk f lines next span = record {
    chunk_id = new_id next;
    repo_id = repo_id;
    path = f.path;
    start_line = span.start + 1;
    end_line = span.stop;
    language = f.language;
    content = join_lines (slice span.start span.stop lines);
    vector = [];
    file_hash = f.hash;
    embedding_model = "";
    parent_chunk_id = "";
  }

  unfoldable pub child_chunk : SourceFile → Chunk → List Text → ℕ → Span → Chunk
  unfolding join_lines
  child_chunk f parent parent_lines next span = record {
    chunk_id = new_id next;
    repo_id = repo_id;
    path = f.path;
    start_line = parent.start_line + span.start;
    end_line = parent.start_line + span.stop - 1;
    language = f.language;
    content = join_lines (slice span.start span.stop parent_lines);
    vector = [];
    file_hash = f.hash;
    embedding_model = "";
    parent_chunk_id = parent.chunk_id;
  }

  unfoldable pub child_chunks : SourceFile → Chunk → List Text → ℕ → List Span → List Chunk
  unfolding child_chunk
  child_chunks f parent parent_lines next [] = []
  child_chunks f parent parent_lines next (s ∷ ss) =
      child_chunk f parent parent_lines next s ∷ child_chunks f parent parent_lines (suc next) ss

  -- One parent with its children behind it.
  unfoldable pub family : SourceFile → List Text → ℕ → Span → List Chunk
  unfolding parent_chunk child_chunks line_windows
  family f lines next s =
      let parent = parent_chunk f lines next s in
      let parent_lines = slice s.start s.stop lines in
      parent
      ∷ child_chunks f parent parent_lines (suc next)
          (line_windows parent_lines child_window_tokens child_overlap_tokens none)

  unfoldable pub families : SourceFile → List Text → ℕ → List Span → List Chunk
  unfolding family
  families f lines next [] = []
  families f lines next (s ∷ ss) =
      family f lines next s ++ families f lines (next + length (family f lines next s)) ss

  -- An empty file gives no block.
  unfoldable pub file_chunks : IngestOptions → SourceFile → ℕ → List Chunk
  unfolding families line_windows effective_size effective_overlap boundary_of split_lines
  file_chunks opts f next =
      if length f.content == 0
      then []
      else families f (split_lines f.content) next (
          line_windows (split_lines f.content) (effective_size opts) (effective_overlap opts)
            (boundary_of f))

  unfoldable pub chunk_files_from :
      (ℕ → Bool) → IngestOptions → ℕ → ℕ → List Chunk → List SourceFile → Result Error (List Chunk)
  unfolding file_chunks
  chunk_files_from cancelled opts i next chunks [] = ok chunks
  chunk_files_from cancelled opts i next chunks (f ∷ fs) =
      let rest =
        chunk_files_from cancelled opts (suc i) (next + length (file_chunks opts f next))
          (chunks ++ file_chunks opts f next) fs in
      if cancelled i then err context_canceled else rest

  unfoldable pub chunk_files :
      (ℕ → Bool) → IngestOptions → List SourceFile → Result Error (List Chunk)
  unfolding chunk_files_from
  chunk_files cancelled opts files = chunk_files_from cancelled opts 0 0 [] files
