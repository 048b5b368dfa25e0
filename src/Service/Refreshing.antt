-- ===== src/Service/Refreshing.antt =====
-- RefreshExecutor (deepwiki/internal/service/executors.go): the stages, of which the second compares the
-- file tree with the hashes in the `chunks` table, and the end of an execution.
pub mod Diff
pub mod Spared
pub mod Sync
use godeepwiki.Common.{
  ℕ, Bool, true, false, not, ◌&&◌, String, List, [], ◌∷◌, ◌++◌, Option, none, some, str_eq,
  if◌then◌else◌, ◌==◌, length, Result, ok, err,
}
use godeepwiki.Common.Dict.{lookup, insert}
use godeepwiki.Model.Task.{Task, fetching, diffing, chunking, embedding, persisting}
use godeepwiki.Model.Repo.{Repo}
use godeepwiki.Model.Chunk.{Chunk}
use godeepwiki.Model.Errors.{Error, wrapped, code_task_interrupted, message_of}
use godeepwiki.Store.Table.{Table}
use godeepwiki.Store.Chunks.{file_hashes, delete_by_paths}
use godeepwiki.Store.Repos.{get_repo, update_repo}
use godeepwiki.Search.Index.{delete_docs}
use godeepwiki.Ingest.Chunker.{SourceFile, IngestOptions}
use godeepwiki.Ingest.Pipeline.{Stage, Running, Ended, plain, stage_error, run_pipeline}
use godeepwiki.Ingest.Pipeline.Outcome.{report_to}
use godeepwiki.Ingest.Stages.{
  StageEnv, StageFn, Work, snapshot_stats, chunk_stage, embed_stage, persist_stage,
}
use godeepwiki.Manager.Dispatch.{RunResult, done, failed_with}
use godeepwiki.Service.Site.{Site, ExecEnv, build_ingest_options, run_result, fail_task_with}
use godeepwiki.Service.Ingesting.{after_pipeline}

abbrev pub Hashes : Type 0
Hashes = List (String × String)

-- newHashes: of two files of one path the last counts.
unfoldable pub new_hashes : List SourceFile → Hashes → Hashes
unfolding insert
new_hashes [] m = m
new_hashes (f ∷ fs) m = new_hashes fs (insert f.path f.hash m)

-- !ok || old != f.Hash
unfoldable pub is_changed : Hashes → SourceFile → Bool
unfolding lookup
is_changed old f = elim (lookup f.path old) [ none ↦ true | some h ↦ not (str_eq h f.hash) ]

unfoldable pub changed_files : Hashes → List SourceFile → List SourceFile
unfolding is_changed
changed_files old [] = []
changed_files old (f ∷ fs) =
    let rest = changed_files old fs in if is_changed old f then f ∷ rest else rest

abbrev pub paths_of : List SourceFile → List String
paths_of [] = []
paths_of (f ∷ fs) = f.path ∷ paths_of fs

-- The paths of the table that are not in the tree.
unfoldable pub gone_paths : Hashes → Hashes → List String
unfolding lookup
gone_paths new [] = []
gone_paths new ((p, h) ∷ old) =
    let rest = gone_paths new old in elim (lookup p new) [ none ↦ p ∷ rest | some x ↦ rest ]

unfoldable pub dirty_paths : Hashes → List SourceFile → List String
unfolding new_hashes changed_files gone_paths
dirty_paths old files = paths_of (changed_files old files) ++ gone_paths (new_hashes files []) old

module _ (env : StageEnv) where
  unfoldable pub fetched : Result Error String → StageFn
  fetched (err e) w = (err e, w)
  fetched (ok commit) w = (ok tt, record w { commit_hash = commit })

  unfoldable pub fetch_stage : StageFn
  unfolding fetched
  fetch_stage w = fetched env.fetch w

  -- OpenSearch after the table: what the table has lost is lost also when this fails.
  unfoldable pub unindexed : List String → Result Error (Unit {0}) → StageFn
  unfolding delete_docs
  unindexed dirty (err e) w = (err e, w)
  unindexed dirty (ok _) w =
      let (reply, index) = delete_docs env.unindex_ok dirty w.index in
      (reply, record w { index = index })

  unfoldable pub delete_dirty : List String → StageFn
  unfolding unindexed
  delete_dirty dirty w =
      let (reply, table) = delete_by_paths env.delete_ok w.repo_id dirty w.table in
      if length dirty == 0 then (ok tt, w) else unindexed dirty reply (record w { table = table })

  abbrev pub keep_changed :
      List SourceFile → Result Error (Unit {0}) × Work → Result Error (Unit {0}) × Work
  keep_changed changed (err e, w) = (err e, w)
  keep_changed changed (ok _, w) = (ok tt, record w { files = changed })

  unfoldable pub compared : List SourceFile → Result Error Hashes → StageFn
  unfolding delete_dirty dirty_paths changed_files
  compared files (err e) w = (err e, w)
  compared files (ok old) w =
      keep_changed (changed_files old files) (delete_dirty (dirty_paths old files) w)

  unfoldable pub diff_parsed : Result Error (List SourceFile) → StageFn
  unfolding compared file_hashes
  diff_parsed (err e) w = (err e, w)
  diff_parsed (ok files) w = compared files (file_hashes env.hashes_ok w.repo_id w.table) w

  unfoldable pub diff_stage : StageFn
  unfolding diff_parsed
  diff_stage w = diff_parsed env.parse w

  -- The last three are those of an ingest, with an index in any case.
  abbrev pub refresh_stages : List (Stage Work)
  refresh_stages =
      record { name = fetching; fn = fetch_stage }
      ∷ record { name = diffing; fn = diff_stage }
      ∷ record { name = chunking; fn = chunk_stage env }
      ∷ record { name = embedding; fn = embed_stage env }
      ∷ record { name = persisting; fn = persist_stage (record env { has_indexer = true }) }
      ∷ []

module _ (cfg : IngestOptions) where
  -- A failed stage fails the task; the repository keeps its state. The UPDATE of the repository at
  -- the end takes the new commit; its error is ignored.
  unfoldable pub refresh_ended : ExecEnv → Task → Repo → Site → Ended Table Work → RunResult × Site
  unfolding update_repo fail_task_with run_result
  refresh_ended env t repo site (ok _, r) =
      let repos =
        (update_repo env.repo_update_ok env.now
          (record repo { commit_hash = r.context.commit_hash }) site.repos).1 in
      (done, record (after_pipeline site r) { repos = repos })
  refresh_ended env t repo site (err (plain e), r) = (run_result e, after_pipeline site r)
  refresh_ended env t repo site (err (stage_error stage e), r) = (
    done,
    record (after_pipeline site r) {
      tasks =
          fail_task_with env t.task_id stage code_task_interrupted
            (message_of code_task_interrupted) r.store;
    },
  )

  abbrev pub refresh_start : ExecEnv → Task → Repo → Site → Running Table Work
  refresh_start env t repo site = record {
    store = site.tasks;
    context = record {
      repo_id = repo.repo_id;
      commit_hash = repo.commit_hash;
      options = build_ingest_options cfg none;
      files = [];
      chunks = [];
      table = site.chunks;
      index = site.index;
    };
    events = site.events;
  }

  unfoldable pub refresh_found : ExecEnv → Task → Site → Result Error Repo → RunResult × Site
  unfolding refresh_ended run_pipeline run_result
  refresh_found env t site (err e) = (run_result e, site)
  refresh_found env t site (ok repo) =
      if str_eq repo.local_path ""
      then (failed_with (wrapped "repo local path empty"), site)
      else refresh_ended env t repo site (
          run_pipeline env.pipeline (report_to env.reads_ok env.writes_ok env.now t.task_id)
            snapshot_stats (refresh_stages env.stage) (refresh_start env t repo site))

  unfoldable pub refresh_execute : ExecEnv → Task → Site → RunResult × Site
  unfolding refresh_found get_repo
  refresh_execute env t site =
      refresh_found env t site (get_repo env.repo_get_ok t.repo_id site.repos)
