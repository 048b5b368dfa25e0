-- ===== src/Model/Chunk.antt =====
-- deepwiki/internal/model/chunk.go: blocks of a file, and hits of a search. A text is the list of
-- its code points; a vector is the list of the bit patterns of its float32 numbers.
use godeepwiki.Common.{ℕ, String, List, str_eq, if◌then◌else◌}

abbrev pub Text : Type 0
Text = List ℕ

pub record Chunk : Type 0 where
  pub chunk_id : String
  pub repo_id : String
  pub path : String
  pub start_line : ℕ
  pub end_line : ℕ
  pub language : String
  pub content : Text
  pub vector : List ℕ
  pub file_hash : String
  pub embedding_model : String
  pub parent_chunk_id : String

-- A child block belongs to its parent, a parent block to itself.
unfoldable pub context_id : Chunk → String
context_id c = if str_eq c.parent_chunk_id "" then c.chunk_id else c.parent_chunk_id
