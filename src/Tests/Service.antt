-- ===== src/Tests/Service.antt =====
-- The theorems on the executors and the ingest stages at concrete inputs.
use godeepwiki.Common.{ℕ, suc, refl, Bool, true, false, String, [], ◌∷◌, map, none, Result, ok}
use godeepwiki.Common.Dict.{lookup}
use godeepwiki.Model.Task.{
  can_transition, Task, TaskState, TaskType, Progress, Stats, ingest, wiki, pending,
}
use godeepwiki.Model.Repo.{Repo, repo_state_ingesting}
use godeepwiki.Model.Chunk.{Chunk}
use godeepwiki.Model.Errors.{Error}
use godeepwiki.Store.Ops.{update_state}
use godeepwiki.Store.Repos.{get_repo, find_repo, found_repo}
use godeepwiki.Store.Chunks.{valid_id, hashes_from}
use godeepwiki.Search.Index.{accepted}
use godeepwiki.Ingest.Chunker.{SourceFile, IngestOptions}
use godeepwiki.Ingest.Pipeline.{PipelineEnv, Running, run_pipeline, run_stages}
use godeepwiki.Ingest.Pipeline.Chain.{EndsWith}
use godeepwiki.Ingest.Stages.{
  clone_stage, parse_stage, chunk_stage, persist_stage, StageEnv, Work, snapshot_stats, embed_stage,
}
use godeepwiki.Service.Site.{build_ingest_options, Site, ExecEnv}
use godeepwiki.Service.Ingesting.{IngestTaskPayload, ingest_execute}
use godeepwiki.Service.Ingesting.Outcome.{IsIngestOutcome, ingest_execute-outcome}
use godeepwiki.Service.Ingesting.Renaming.{IsHalfDone, ingest_execute-IsHalfDone}
use godeepwiki.Service.Refreshing.{refresh_stages}
use godeepwiki.Service.Refreshing.Spared.{IsUniform, IsCurrent}
use godeepwiki.Service.Refreshing.Sync.{refresh_run-IsCurrent}
use godeepwiki.Service.Wiki.{WikiEnv, WikiSite, wiki_execute}
use godeepwiki.Service.Wiki.Ends.{IsWikiOutcome}
use godeepwiki.Service.Wiki.Pages.{wiki_execute-outcome}
use godeepwiki.Tests.Data.{task_of, row_of}

abbrev repo_id_1 : String
repo_id_1 = "repo_00000000000000000000000001"

abbrev task_id_1 : String
task_id_1 = "tsk_00000000000000000000000001"

abbrev repo : Repo
repo = record {
  repo_id = repo_id_1;
  repo_url = "https://example.com/a.git";
  branch = "main";
  commit_hash = "c0";
  local_path = "data/repos/a";
  state = repo_state_ingesting;
  stats = record { files = 0; chunks = 0; tokens = 0 };
  created_at = 1;
  updated_at = 1;
}

abbrev task_for : TaskType → Task
task_for type = record (task_of task_id_1 type pending none none) { repo_id = repo_id_1 }

-- "a"
abbrev source : SourceFile
source = record { path = "a.txt"; language = "text"; content = 97 ∷ []; hash = "h1" }

abbrev stage_env : StageEnv
stage_env = record {
  clone = ok tt;
  fetch = ok "c1";
  parse = ok (source ∷ []);
  new_id = λ i. "chk_00000000000000000000000001";
  cancelled_at = λ i. false;
  embed = λ texts. ok (map (λ t. 1 ∷ []) texts);
  model_name = "m";
  batch_ok = λ i. true;
  hashes_ok = true;
  delete_ok = true;
  has_indexer = true;
  create_ok = true;
  bulk_reply = λ i. accepted;
  unindex_ok = true;
}

abbrev pipeline_env : PipelineEnv
pipeline_env = record { done = λ s. none; bus_ok = λ s. true }

abbrev exec_env : Bool → ExecEnv
exec_env rename_ok = record {
  now = 100;
  stage = stage_env;
  pipeline = pipeline_env;
  reads_ok = true;
  writes_ok = true;
  repo_get_ok = true;
  mkdir_ok = true;
  fail_reads_ok = true;
  fail_writes_ok = true;
  mark_get_ok = true;
  mark_update_ok = true;
  parent_ok = true;
  rename_ok = rename_ok;
  repo_update_ok = true;
}

-- A block of an old version of the file.
abbrev old_chunk : Chunk
old_chunk = record {
  chunk_id = "chk_00000000000000000000000000";
  repo_id = repo_id_1;
  path = "a.txt";
  start_line = 1;
  end_line = 1;
  language = "text";
  content = 98 ∷ [];
  vector = [];
  file_hash = "h0";
  embedding_model = "";
  parent_chunk_id = "";
}

abbrev child_chunk : Chunk
child_chunk = record old_chunk {
  chunk_id = "chk_00000000000000000000000002";
  parent_chunk_id = "chk_00000000000000000000000000";
}

abbrev site_of : TaskType → Site
site_of type = record {
  tasks = row_of (task_for type) ∷ [];
  repos = repo ∷ [];
  chunks = [];
  index = [];
  events = [];
  wiki_asked = [];
}

abbrev decoded : String → IngestTaskPayload
decoded payload = record { auto_wiki = true; options = none }

abbrev options : IngestOptions
options = record { chunk_size = 500; chunk_overlap = 50; include_ext = []; exclude_dirs = [] }

ingest_execute-outcome_example :
    IsIngestOutcome task_id_1 repo_id_1
      (ingest_execute decoded "data" options (exec_env true) (task_for ingest) (site_of ingest))
ingest_execute-outcome_example =
    ingest_execute-outcome decoded "data" options (exec_env true) (task_for ingest) (site_of ingest)
      (record {
        fail_reads = refl;
        fail_writes = refl;
        mark_get = refl;
        mark_update = refl;
        repo_update = refl;
      })

abbrev work : Work
work = record {
  repo_id = repo_id_1;
  commit_hash = "c0";
  options = options;
  files = [];
  chunks = old_chunk ∷ child_chunk ∷ [];
  table = old_chunk ∷ [];
  index = [];
}

-- A store that counts the reports.
abbrev counted : TaskState → Progress → Stats → ℕ → Result Error (Unit {0}) × ℕ
counted state progress stats n = (ok tt, suc n)

abbrev start : Running ℕ Work
start = record { store = 0; context = work; events = [] }

one_hash : IsUniform repo_id_1 (old_chunk ∷ [])
unfolding hashes_from lookup
one_hash = (λ mine. refl, tt)

refresh_run-IsCurrent_example :
    EndsWith
      (λ w. IsCurrent repo_id_1 (source ∷ []) w.table)
      (run_pipeline pipeline_env counted snapshot_stats (refresh_stages stage_env) start)
refresh_run-IsCurrent_example =
    refresh_run-IsCurrent stage_env repo_id_1 (source ∷ []) pipeline_env counted start refl refl
      one_hash

abbrev wiki_env : WikiEnv
wiki_env = record {
  now = 100;
  repo_get_ok = true;
  has_retriever = true;
  db_ok = λ i. true;
  bus_ok = true;
  search_ok = true;
  toc = ok [];
  wiki_get_ok = true;
  cancelled = λ n. none;
  page = λ item. ok "text";
  save_ok = λ n. true;
  final_save_ok = true;
  end_ok = true;
  fail_ok = true;
}

abbrev wiki_site : WikiSite
wiki_site = record {
  tasks = row_of (task_for wiki) ∷ [];
  repos = repo ∷ [];
  wikis = [];
  events = [];
}

wiki_execute-outcome_example :
    IsWikiOutcome task_id_1 repo_id_1 (wiki_execute wiki_env (task_for wiki) wiki_site)
wiki_execute-outcome_example = wiki_execute-outcome wiki_env (task_for wiki) wiki_site refl

ingest_execute-IsHalfDone_example :
    IsHalfDone task_id_1
      (site_of ingest)
      (ingest_execute decoded "data" options (exec_env false) (task_for ingest) (site_of ingest))
unfolding get_repo find_repo found_repo valid_id run_pipeline run_stages update_state can_transition
    clone_stage parse_stage chunk_stage embed_stage build_ingest_options persist_stage
ingest_execute-IsHalfDone_example =
    ingest_execute-IsHalfDone decoded "data" options (exec_env false) (task_for ingest) repo
      (site_of ingest) refl refl refl refl refl
