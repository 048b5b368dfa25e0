-- ===== src/Tests/Ingest.antt =====
-- The theorems on the chunker at concrete inputs.
use godeepwiki.Common.{ℕ, ◌≢◌, ◌==◌, Bool, [], ◌∷◌, String, arith, All, eq_iff}
use godeepwiki.Model.Chunk.{Text}
use godeepwiki.Ingest.Lines.{split_lines}
use godeepwiki.Ingest.Windows.{split_windows}
use godeepwiki.Ingest.Windows.Cover.{IsChain, BeginsAt, split_windows-IsChain}
use godeepwiki.Ingest.Chunker.{SourceFile, IngestOptions, file_chunks}
use godeepwiki.Ingest.Chunker.Citations.{IsCitation, file_chunks-IsCitation}
use godeepwiki.Ingest.Chunker.Family.{HasLine, file_chunks-HasLine}

-- Three tokens a line, and a heading at line 2.
abbrev three_each : ℕ → ℕ
three_each i = 3

abbrev heading_at_2 : ℕ → Bool
heading_at_2 i = i == 2

split_windows-IsChain_example :
    IsChain three_each heading_at_2 6 3 5 (split_windows three_each heading_at_2 6 3 5)
    × BeginsAt 0 (split_windows three_each heading_at_2 6 3 5)
split_windows-IsChain_example =
    split_windows-IsChain three_each heading_at_2 6 3 5 (omega arith) (omega arith)

-- "#\na"
abbrev two_lines : Text
two_lines = 35 ∷ 10 ∷ 97 ∷ []

abbrev readme : SourceFile
readme = record { path = "README.md"; language = "markdown"; content = two_lines; hash = "h" }

abbrev options : IngestOptions
options = record { chunk_size = 500; chunk_overlap = 50; include_ext = []; exclude_dirs = [] }

abbrev one_id : ℕ → String
one_id i = "chunk_1"

one_id_named : (i : ℕ) → one_id i ≢ ""
one_id_named i e = ground (arith, eq_iff "chunk_1" "")

file_chunks-IsCitation_example :
    All (IsCitation readme (split_lines two_lines)) (file_chunks one_id "repo_1" options readme 0)
file_chunks-IsCitation_example = file_chunks-IsCitation one_id "repo_1" options readme 0

file_chunks-HasLine_example : HasLine 1 (file_chunks one_id "repo_1" options readme 0)
unfolding split_lines
file_chunks-HasLine_example =
    file_chunks-HasLine one_id "repo_1" one_id_named options readme 0 1 (omega arith) (omega arith)
