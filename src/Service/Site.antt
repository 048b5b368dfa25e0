-- ===== src/Service/Site.antt =====
-- What the executors of deepwiki/internal/service/executors.go work on, and what they share.
use godeepwiki.Common.{ℕ, Bool, String, List, Option, none, some}
use godeepwiki.Model.Task.{TaskState, TaskPatch, empty_patch, failed, at_state}
use godeepwiki.Model.Chunk.{Chunk}
use godeepwiki.Model.Errors.{Error, context_canceled, deadline_exceeded}
use godeepwiki.Store.Table.{Table}
use godeepwiki.Store.Ops.{update_state}
use godeepwiki.Store.Repos.{Repos}
use godeepwiki.Search.Index.{Index}
use godeepwiki.Ingest.Chunker.{IngestOptions}
use godeepwiki.Ingest.Pipeline.{PipelineEnv, StageEvent}
use godeepwiki.Ingest.Stages.{StageEnv}
use godeepwiki.Manager.Dispatch.{RunResult, canceled, failed_with}
use godeepwiki.Manager.Dispatch

-- The tables, the index of the repository, the events that were published, and the repositories
-- for which a wiki was asked.
pub record Site : Type 0 where
  pub tasks : Table
  pub repos : Repos
  pub chunks : List Chunk
  pub index : Index
  pub events : List StageEvent
  pub wiki_asked : List String

-- What the outer systems do during one execution. `reads_ok` and `writes_ok` are about the reports of
-- the pipeline, `fail_reads_ok` and `fail_writes_ok` about the UPDATE after a failed stage, which runs
-- under the task's own context.
pub record ExecEnv : Type 0 where
  pub now : ℕ
  pub stage : StageEnv
  pub pipeline : PipelineEnv
  pub reads_ok : Bool
  pub writes_ok : Bool
  pub repo_get_ok : Bool
  pub mkdir_ok : Bool
  pub fail_reads_ok : Bool
  pub fail_writes_ok : Bool
  pub mark_get_ok : Bool
  pub mark_update_ok : Bool
  pub parent_ok : Bool
  pub rename_ok : Bool
  pub repo_update_ok : Bool

-- dto.IngestOptionsDTO: nil fields keep the configuration's.
pub record IngestOptionsDto : Type 0 where
  pub chunk_size : Option ℕ
  pub chunk_overlap : Option ℕ
  pub include_ext : Option (List String)
  pub exclude_dirs : Option (List String)

abbrev pub or_config {ℓ} : {A : Type ℓ} → Option A → A → A
or_config none a = a
or_config (some b) a = b

unfoldable pub build_ingest_options : IngestOptions → Option IngestOptionsDto → IngestOptions
build_ingest_options cfg none = cfg
build_ingest_options cfg (some o) = record {
  chunk_size = or_config o.chunk_size cfg.chunk_size;
  chunk_overlap = or_config o.chunk_overlap cfg.chunk_overlap;
  include_ext = or_config o.include_ext cfg.include_ext;
  exclude_dirs = or_config o.exclude_dirs cfg.exclude_dirs;
}

-- How an error that the executor returns ends the run, as dispatch sees it.
unfoldable pub run_result : Error → RunResult
run_result context_canceled = canceled
run_result deadline_exceeded = Dispatch.deadline_exceeded
run_result e = failed_with e

abbrev pub fail_patch : ℕ → ℕ → String → TaskState → TaskPatch
fail_patch now code message stage = record empty_patch {
  state = some failed;
  error = some (record { code = code; message = message; stage = at_state stage });
  finished_at = some now;
}

-- failTaskWith; its error is ignored.
unfoldable pub fail_task_with : ExecEnv → String → TaskState → ℕ → String → Table → Table
unfolding update_state
fail_task_with env id stage code message table =
    (update_state env.fail_reads_ok env.fail_writes_ok env.now id
      (fail_patch env.now code message stage) table).1
