-- ===== src/Service/Refreshing/Sync.antt =====
-- After a refresh (service/executors.go) the table holds no block of an old version of a file.
use godeepwiki.Common.{
  ℕ, ◌≡◌, refl, sym, subst, true, String, List, [], ◌∷◌, str_eq, eq_iff, arith, Bool-cases, inl,
  inr, All, All-append, Result, ok, err,
}
use godeepwiki.Model.Task.{TaskState, Progress, Stats}
use godeepwiki.Model.Chunk.{Chunk}
use godeepwiki.Model.Errors.{Error}
use godeepwiki.Store.Chunks.{insert_batch}
use godeepwiki.Store.Chunks.Batches.{Wrote, insert_batch-Wrote}
use godeepwiki.Ingest.Chunker.{SourceFile, file_chunks, chunk_files, chunk_files_from}
use godeepwiki.Ingest.Chunker.Origin.{file_chunks-IsFrom, chunk_files_from-All, IsFrom}
use godeepwiki.Ingest.Pipeline.{PipelineEnv, Running, run_pipeline}
use godeepwiki.Ingest.Pipeline.Chain.{Ensures, EndsWith, Chain, end, link, run_stages-EndsWith}
use godeepwiki.Ingest.Stages.{
  StageEnv, Work, chunk_stage, chunked, embed_stage, persist_stage, stored, index_chunks,
  snapshot_stats,
}
use godeepwiki.Ingest.Stages.Vectors.{attach, Embeds, embed_stage-Embeds}
use godeepwiki.Service.Refreshing.{refresh_stages}
use godeepwiki.Service.Refreshing.Diff.{has_version}
use godeepwiki.Service.Refreshing.Spared.{
  IsUniform, IsCurrent, All-imp, Before, Left, fetch_lem, diff_lem, Ensures-any,
}

module _ (env : StageEnv) (repo_id : String) (files : List SourceFile) where
  abbrev IsNew : Chunk → Type 0
  IsNew c = has_version c.path c.file_hash files ≡ true

  -- After the blocks are made.
  abbrev Made : Work → Type 0
  Made w = IsCurrent repo_id files w.table × All IsNew w.chunks

  IsFrom-IsNew :
      (fs : List SourceFile) (f : SourceFile) (c : Chunk)
      → has_version f.path f.hash fs ≡ true
      → IsFrom env.new_id repo_id f c
      → has_version c.path c.file_hash fs ≡ true
  IsFrom-IsNew fs f c v o = rw (o.1, o.2) v

  own_version : (fs : List SourceFile) → All (λ f. has_version f.path f.hash fs ≡ true) fs
  own_version [] = tt
  own_version (f ∷ fs) = (
    ground (arith, eq_iff f.path f.path, eq_iff f.hash f.hash),
    All-imp (λ g. has_version g.path g.hash fs ≡ true)
        (λ g. has_version g.path g.hash (f ∷ fs) ≡ true) fs (λ g v. ground arith) (own_version fs),
  )

  abbrev Blocks : Result Error (List Chunk) → Type 0
  Blocks (ok chunks) = All IsNew chunks
  Blocks (err e) = Unit {0}

  chunked-Made :
      (w : Work) (reply : Result Error (List Chunk))
      → Left env repo_id files w
      → Blocks reply
      → Ensures Made (chunked env reply w)
  unfolding chunked
  chunked-Made w (ok chunks) left b = (left.1, b)
  chunked-Made w (err e) left b = tt

  chunk_lem : (w : Work) → Left env repo_id files w → Ensures Made (chunk_stage env w)
  unfolding chunk_stage chunk_files
  chunk_lem w left = chunked-Made w _ left (
      subst (λ i. Blocks (chunk_files_from env.new_id i env.cancelled_at w.options 0 0 [] w.files))
        (sym left.0)
        (chunk_files_from-All env.new_id repo_id IsNew env.cancelled_at w.options 0 0 [] w.files tt
          (All-imp (λ f. has_version f.path f.hash w.files ≡ true)
            (λ f. (next : ℕ) → All IsNew (file_chunks env.new_id repo_id w.options f next)) w.files
            (λ f v next.
              All-imp (IsFrom env.new_id repo_id f) IsNew _
                (λ c. IsFrom-IsNew files f c (left.2 f.path f.hash v))
                (file_chunks-IsFrom env.new_id repo_id w.options f next))
            (own_version w.files))))

  attach-IsNew :
      (name : String) (cs : List Chunk) (vs : List (List ℕ))
      → All IsNew cs
      → All IsNew (attach name cs vs)
  attach-IsNew name [] vs all = tt
  attach-IsNew name (c ∷ cs) [] all = all
  attach-IsNew name (c ∷ cs) (v ∷ vs) all = elim (Bool-cases (str_eq c.parent_chunk_id "")) [
    | inl parent ↦ rw parent (all.0, attach-IsNew name cs (v ∷ vs) all.1)
    | inr child ↦ rw child (all.0, attach-IsNew name cs vs all.1)
  ]

  embeds_lem :
      (w : Work) (reply : Result Error (Unit {0}) × Work)
      → Made w
      → Embeds env w reply
      → Ensures Made reply
  embeds_lem w (err e, w') made h = tt
  embeds_lem w (ok _, w') made (inl h) = subst Made (sym h.1) made
  embeds_lem w (ok _, w') made (inr h) =
      subst Made (sym h.3) (made.0, attach-IsNew env.model_name w.chunks h.0 made.1)

  embed_lem : (w : Work) → Made w → Ensures Made (embed_stage env w)
  embed_lem w made = embeds_lem w (embed_stage env w) made (embed_stage-Embeds env w)

  -- At the end.
  abbrev Synced : Work → Type 0
  Synced w = IsCurrent repo_id files w.table

  index_lem : (env' : StageEnv) (w : Work) → Synced w → Ensures Synced (index_chunks env' w)
  unfolding index_chunks
  index_lem env' w s = elim (Bool-cases env'.has_indexer) [
    | inr bare ↦ rw bare s
    | inl has ↦ elim (Bool-cases env'.create_ok) [
      | inr no_index ↦ rw (has, no_index) tt
      | inl there ↦
          rw (has, there) (Ensures-any env repo_id files Synced _ (record w { index = _ }) s)
    ]
  ]

  stored-Synced :
      (env' : StageEnv) (w : Work) (reply : Result Error (Unit {0}) × List Chunk)
      → (reply.0 ≡ ok tt → IsCurrent repo_id files reply.1)
      → Ensures Synced (stored env' reply.0 (record w { table = reply.1 }))
  unfolding stored
  stored-Synced env' w (err e, table) s = tt
  stored-Synced env' w (ok _, table) s = index_lem env' (record w { table = table }) (s refl)

  Wrote-IsCurrent :
      (table chunks : List Chunk) (reply : Result Error (Unit {0}) × List Chunk)
      → IsCurrent repo_id files table
      → All IsNew chunks
      → Wrote table chunks reply
      → (reply.0 ≡ ok tt → IsCurrent repo_id files reply.1)
  Wrote-IsCurrent table chunks (ok _, table') cur all w good =
      subst (IsCurrent repo_id files) (sym w)
        (All-append _ table chunks cur (All-imp IsNew _ chunks (λ c v mine. v) all))
  Wrote-IsCurrent table chunks (err e, table') cur all w good = absurd (cc)

  persist_lem : (env' : StageEnv) (w : Work) → Made w → Ensures Synced (persist_stage env' w)
  unfolding persist_stage
  persist_lem env' w made =
      stored-Synced env' w (insert_batch env'.batch_ok w.chunks w.table)
        (elim (insert_batch-Wrote env'.batch_ok w.chunks w.table) [
          | inl wrote ↦
              Wrote-IsCurrent w.table w.chunks (insert_batch env'.batch_ok w.chunks w.table) made.0
                made.1 wrote
          | inr kept ↦ λ good. subst (IsCurrent repo_id files) (sym kept.1) made.0
        ])

  refresh-Chain :
      env.parse ≡ ok files → Chain Synced (Before env repo_id files) (refresh_stages env)
  refresh-Chain parsed = link (Before env repo_id files) (fetch_lem env repo_id files) (
      link (Left env repo_id files) (diff_lem env repo_id files parsed) (
        link Made chunk_lem (
          link Made embed_lem
            (link Synced (persist_lem (record env { has_indexer = true })) (end (λ w s. s))))))

  -- ParseFiles finds the given files, and before the run the rows of each path of the repository
  -- have one hash. Then, whatever the outer systems do, a refresh that succeeds leaves no row of the
  -- repository that is of a file which is gone or of another version of a file.
  pub refresh_run-IsCurrent :
      {T : Type 0} (pipeline : PipelineEnv)
      (report : TaskState → Progress → Stats → T → Result Error (Unit {0}) × T) (r : Running T Work)
      → env.parse ≡ ok files
      → r.context.repo_id ≡ repo_id
      → IsUniform repo_id r.context.table
      → EndsWith
          (λ w. IsCurrent repo_id files w.table)
          (run_pipeline pipeline report snapshot_stats (refresh_stages env) r)
  unfolding run_pipeline
  refresh_run-IsCurrent pipeline report r parsed mine u =
      run_stages-EndsWith pipeline report snapshot_stats Synced (refresh-Chain parsed) 0 r (mine, u)
