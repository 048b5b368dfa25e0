-- ===== src/Ingest/Stages.antt =====
-- The stages of an ingest (NewIngestStages of deepwiki/internal/ingest/pipeline.go). `StageEnv` holds what
-- the outer systems answer: git, the file tree that ParseFiles finds, the embedder, the database and
-- OpenSearch.
pub mod Vectors
use godeepwiki.Common.{
  ℕ, zero, suc, ◌+◌, Bool, true, false, not, String, List, [], ◌∷◌, ◌++◌, Option, none, some,
  str_eq, if◌then◌else◌, ◌==◌, length, Result, ok, err,
}
use godeepwiki.Model.Task.{Stats, cloning, parsing, chunking, embedding, persisting}
use godeepwiki.Model.Chunk.{Chunk, Text}
use godeepwiki.Model.Errors.{Error, wrapped}
use godeepwiki.Store.Chunks.{insert_batch}
use godeepwiki.Search.Index.{Index, BulkReply, bulk_index}
use godeepwiki.Ingest.Chunker.{SourceFile, IngestOptions, chunk_files, estimate_tokens}
use godeepwiki.Ingest.Pipeline.{Stage}

pub record StageEnv : Type 0 where
  pub clone : Result Error (Unit {0})
  pub fetch : Result Error String
  pub parse : Result Error (List SourceFile)
  pub new_id : ℕ → String
  pub cancelled_at : ℕ → Bool
  pub embed : List Text → Result Error (List (List ℕ))
  pub model_name : String
  pub batch_ok : ℕ → Bool
  pub hashes_ok : Bool
  pub delete_ok : Bool
  pub has_indexer : Bool
  pub create_ok : Bool
  pub bulk_reply : ℕ → BulkReply
  pub unindex_ok : Bool

-- PipelineContext with the tables that the stages write.
pub record Work : Type 0 where
  pub repo_id : String
  pub commit_hash : String
  pub options : IngestOptions
  pub files : List SourceFile
  pub chunks : List Chunk
  pub table : List Chunk
  pub index : Index

abbrev pub no_indexable_files : Error
no_indexable_files = wrapped "no indexable files after filtering"

abbrev sum_tokens : List Chunk → ℕ
sum_tokens [] = 0
sum_tokens (c ∷ cs) = estimate_tokens c.content + sum_tokens cs

unfoldable pub snapshot_stats : Work → Stats
unfolding estimate_tokens
snapshot_stats w = record {
  files = length w.files;
  chunks = length w.chunks;
  tokens = sum_tokens w.chunks;
}

abbrev pub StageFn : Type 0
StageFn = Work → Result Error (Unit {0}) × Work

-- childIdx and texts: where the child blocks stand, and what they say.
unfoldable pub child_indexes : ℕ → List Chunk → List ℕ
child_indexes i [] = []
child_indexes i (c ∷ cs) =
    let rest = child_indexes (suc i) cs in if str_eq c.parent_chunk_id "" then rest else i ∷ rest

unfoldable pub child_texts : List Chunk → List Text
child_texts [] = []
child_texts (c ∷ cs) =
    let rest = child_texts cs in if str_eq c.parent_chunk_id "" then rest else c.content ∷ rest

unfoldable pub set_vector : ℕ → List ℕ → String → List Chunk → List Chunk
set_vector i v name [] = []
set_vector zero v name (c ∷ cs) = record c { vector = v; embedding_model = name } ∷ cs
set_vector (suc i) v name (c ∷ cs) = c ∷ set_vector i v name cs

-- for j, i := range childIdx
unfoldable pub set_vectors : List ℕ → List (List ℕ) → String → List Chunk → List Chunk
unfolding set_vector
set_vectors (i ∷ is) (v ∷ vs) name chunks = set_vectors is vs name (set_vector i v name chunks)
set_vectors is vs name chunks = chunks

module _ (env : StageEnv) where
  unfoldable pub clone_stage : StageFn
  clone_stage w = (env.clone, w)

  unfoldable pub parsed : Result Error (List SourceFile) → StageFn
  parsed (err e) w = (err e, w)
  parsed (ok []) w = (err no_indexable_files, w)
  parsed (ok (f ∷ fs)) w = (ok tt, record w { files = f ∷ fs })

  unfoldable pub parse_stage : StageFn
  unfolding parsed
  parse_stage w = parsed env.parse w

  unfoldable pub chunked : Result Error (List Chunk) → StageFn
  chunked (err e) w = (err e, w)
  chunked (ok chunks) w = (ok tt, record w { chunks = chunks })

  unfoldable pub chunk_stage : StageFn
  unfolding chunked chunk_files
  chunk_stage w = chunked (chunk_files env.new_id w.repo_id env.cancelled_at w.options w.files) w

  unfoldable pub embedded : Result Error (List (List ℕ)) → StageFn
  unfolding child_indexes child_texts set_vectors
  embedded (err e) w = (err e, w)
  embedded (ok vectors) w =
      if length vectors == length (child_texts w.chunks)
      then (
        ok tt,
        record w {
          chunks = set_vectors (child_indexes 0 w.chunks) vectors env.model_name w.chunks;
        },
      )
      else (err (wrapped "embedder returned another number of vectors"), w)

  -- Only child blocks get a vector; with none the embedder is not asked.
  unfoldable pub embed_stage : StageFn
  unfolding embedded child_texts
  embed_stage w =
      if length (child_texts w.chunks) == 0
      then (ok tt, w)
      else embedded (env.embed (child_texts w.chunks)) w

  unfoldable pub index_chunks : StageFn
  unfolding bulk_index
  index_chunks w =
      let (reply, index) = bulk_index env.bulk_reply w.chunks w.index in
      if not env.has_indexer
      then (ok tt, w)
      else if not env.create_ok
      then (err (wrapped "opensearch create index"), w)
      else (reply, record w { index = index })

  unfoldable pub stored : Result Error (Unit {0}) → StageFn
  unfolding index_chunks
  stored (err e) w = (err e, w)
  stored (ok _) w = index_chunks w

  -- Postgres first, then OpenSearch.
  unfoldable pub persist_stage : StageFn
  unfolding stored insert_batch
  persist_stage w =
      let (reply, table) = insert_batch env.batch_ok w.chunks w.table in
      stored reply (record w { table = table })

  abbrev pub ingest_stages : List (Stage Work)
  ingest_stages =
      record { name = cloning; fn = clone_stage }
      ∷ record { name = parsing; fn = parse_stage }
      ∷ record { name = chunking; fn = chunk_stage }
      ∷ record { name = embedding; fn = embed_stage }
      ∷ record { name = persisting; fn = persist_stage }
      ∷ []
