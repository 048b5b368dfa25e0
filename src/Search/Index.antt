-- ===== src/Search/Index.antt =====
-- The OpenSearch index of one repository (deepwiki/internal/search/opensearch.go): CreateIndex,
-- BulkIndex, DeleteByPaths and Count. An index is the list of its documents under their identifiers; one
-- that is not there is empty, since the calls take its absence for success.
use godeepwiki.Common.{
  ℕ, zero, suc, Bool, true, String, List, [], ◌∷◌, str_eq, if◌then◌else◌, ◌==◌, length, take, drop,
  Result, ok, err,
}
use godeepwiki.Common.Dict.{insert}
use godeepwiki.Model.Chunk.{Chunk, Text}
use godeepwiki.Model.Errors.{Error, wrapped}
use godeepwiki.Store.Chunks.{is_among}

pub record ChunkDoc : Type 0 where
  pub chunk_id : String
  pub repo_id : String
  pub path : String
  pub content : Text
  pub language : String
  pub start_line : ℕ
  pub end_line : ℕ

abbrev pub Index : Type 0
Index = List (String × ChunkDoc)

unfoldable pub doc_of : Chunk → ChunkDoc
doc_of c = record {
  chunk_id = c.chunk_id;
  repo_id = c.repo_id;
  path = c.path;
  content = c.content;
  language = c.language;
  start_line = c.start_line;
  end_line = c.end_line;
}

-- What one bulk request does: every item is written, the call fails, or some items fail.
pub data BulkReply : Type 0 where
  accepted refused : BulkReply
  partly : (String → Bool) → BulkReply

abbrev pub bulk_batch_size : ℕ
bulk_batch_size = 500

-- The documents of a batch: its child blocks.
unfoldable pub docs_of : List Chunk → List ChunkDoc
unfolding doc_of
docs_of [] = []
docs_of (c ∷ cs) =
    let rest = docs_of cs in if str_eq c.parent_chunk_id "" then rest else doc_of c ∷ rest

unfoldable pub write_docs : (String → Bool) → List ChunkDoc → Index → Index
unfolding insert
write_docs goes [] index = index
write_docs goes (d ∷ ds) index =
    write_docs goes ds (if goes d.chunk_id then insert d.chunk_id d index else index)

-- One request, by its reply.
unfoldable pub bulk : BulkReply → List ChunkDoc → Index → Result Error (Unit {0}) × Index
unfolding write_docs
bulk accepted docs index = (ok tt, write_docs (λ id. true) docs index)
bulk refused docs index = (err (wrapped "opensearch bulk"), index)
bulk (partly goes) docs index = (err (wrapped "opensearch bulk items"), write_docs goes docs index)

-- A batch of parents only sends nothing.
unfoldable pub send_batch : BulkReply → List ChunkDoc → Index → Result Error (Unit {0}) × Index
unfolding bulk
send_batch reply [] index = (ok tt, index)
send_batch reply (d ∷ ds) index = bulk reply (d ∷ ds) index

abbrev then_batch :
    Result Error (Unit {0}) × Index
    → (Index → Result Error (Unit {0}) × Index)
    → Result Error (Unit {0}) × Index
then_batch (err e, index) rest = (err e, index)
then_batch (ok _, index) rest = rest index

-- The fuel is the number of blocks that are left at most.
unfoldable pub bulk_batches :
    (ℕ → BulkReply) → ℕ → ℕ → List Chunk → Index → Result Error (Unit {0}) × Index
unfolding send_batch docs_of
bulk_batches replies fuel i [] index = (ok tt, index)
bulk_batches replies zero i (c ∷ cs) index = (ok tt, index)
bulk_batches replies (suc fuel) i (c ∷ cs) index =
    let rest = bulk_batches replies fuel (suc i) (drop bulk_batch_size (c ∷ cs)) in
    then_batch (send_batch (replies i) (docs_of (take bulk_batch_size (c ∷ cs))) index) rest

unfoldable pub bulk_index : (ℕ → BulkReply) → List Chunk → Index → Result Error (Unit {0}) × Index
unfolding bulk_batches
bulk_index replies chunks index = bulk_batches replies (length chunks) 0 chunks index

abbrev pub docs_outside : List String → Index → Index
docs_outside paths [] = []
docs_outside paths ((id, d) ∷ index) =
    let rest = docs_outside paths index in if is_among d.path paths then rest else (id, d) ∷ rest

unfoldable pub delete_docs : Bool → List String → Index → Result Error (Unit {0}) × Index
unfolding is_among
delete_docs call_ok paths index =
    if length paths == 0
    then (ok tt, index)
    else if call_ok
    then (ok tt, docs_outside paths index)
    else (err (wrapped "opensearch delete_by_query"), index)
