-- ===== src/Tests/Requests.antt =====
-- The theorems on the services behind the API at concrete inputs.
use godeepwiki.Common.{
  ℕ, ◌+◌, ◌≡◌, refl, Bool, true, false, String, List, [], ◌∷◌, ◌++◌, map, min, length, All, none,
  some, ok,
}
use godeepwiki.Model.Repo.{Repo, repo_state_ready}
use godeepwiki.Model.Chunk.{Text}
use godeepwiki.Retriever.{ChunkHit}
use godeepwiki.Service.Desk.{Desk}
use godeepwiki.Service.Submitting.{IngestRequest, RequestEnv, submit_ingest, submit_refresh}
use godeepwiki.Service.Submitting.Rollback.{IsAtomic, submit_ingest-IsAtomic}
use godeepwiki.Service.Submitting.Admission.{IsAdmitted, submit_refresh-IsAdmitted}
use godeepwiki.Service.Catalog.{CatalogEnv, remove_repo}
use godeepwiki.Service.Catalog.Deletion.{IsDeletion, remove_repo-IsDeletion}
use godeepwiki.Service.Asking.{
  ChatTurn, StreamChunk, Temperatures, AskRequest, Searcher, build_ask_prompt, message_of_turn,
  text_of, system_rules,
}
use godeepwiki.Service.Asking.Answering.{AskEnv, ask_stream}
use godeepwiki.Service.Asking.Transcript.{IsTranscript, ask_stream-IsTranscript}
use godeepwiki.Service.Asking.Prompt.{IsShort, Quotes, build_ask_prompt-IsBounded}
use godeepwiki.Tests.Data.{quiet_world, small_config, submit_env}

abbrev repo_a : String
repo_a = "repo_0000000000000000000000000A"

abbrev ready_repo : Repo
ready_repo = record {
  repo_id = repo_a;
  repo_url = "https://example.com/a.git";
  branch = "main";
  commit_hash = "c0";
  local_path = "data/repos/a";
  state = repo_state_ready;
  stats = record { files = 1; chunks = 2; tokens = 3 };
  created_at = 1;
  updated_at = 1;
}

abbrev desk : Desk
desk = record {
  repos = ready_repo ∷ [];
  chunks = [];
  wikis = [];
  indexes = [];
  world = quiet_world;
}

-- The queue is full when the task is submitted, not when it is looked at before.
abbrev request_env : RequestEnv
request_env = record {
  now = 100;
  repo_id = "repo_0000000000000000000000000B";
  task_id = "tsk_0000000000000000000000000B";
  precheck = none;
  ls_remote = some (ok "c1");
  url_ok = true;
  create_ok = true;
  delete_ok = true;
  get_ok = true;
  list_ok = true;
  submit = submit_env 4 true;
}

abbrev new_request : IngestRequest
new_request = record {
  repo_url = "https://example.com/b.git";
  branch = "main";
  auto_wiki = true;
  options = none;
}

abbrev encoded : IngestRequest → String
encoded req = req.repo_url

submit_ingest-IsAtomic_example :
    IsAtomic encoded small_config request_env new_request desk
      (submit_ingest encoded small_config request_env new_request desk)
submit_ingest-IsAtomic_example =
    submit_ingest-IsAtomic encoded small_config request_env new_request desk refl refl

abbrev payload_of : Repo → String
payload_of r = r.repo_url

submit_refresh-IsAdmitted_example :
    IsAdmitted encoded small_config request_env refl repo_a desk
      (submit_refresh encoded small_config request_env payload_of repo_a desk)
submit_refresh-IsAdmitted_example =
    submit_refresh-IsAdmitted encoded small_config request_env refl payload_of repo_a desk

abbrev catalog_env : CatalogEnv
catalog_env = record {
  get_ok = true;
  list_ok = true;
  wiki_ok = true;
  count_ok = true;
  delete_ok = true;
  has_search = true;
  docs_ok = true;
  index_ok = false;
  remove_ok = true;
}

remove_repo-IsDeletion_example : IsDeletion repo_a desk (remove_repo catalog_env repo_a desk)
remove_repo-IsDeletion_example = remove_repo-IsDeletion catalog_env repo_a desk

-- Temperatures in tenths.
abbrev tenths : Temperatures ℕ
tenths = record { nothing = 0; two = 20; is_negative = λ t. false; above_two = λ t. false }

abbrev one_hit : ChunkHit ℕ
one_hit = record {
  chunk = record {
    chunk_id = "chk_0000000000000000000000000A";
    repo_id = repo_a;
    path = "a.go";
    start_line = 1;
    end_line = 2;
    language = "go";
    content = 97 ∷ [];
    vector = [];
    file_hash = "h";
    embedding_model = "";
    parent_chunk_id = "";
  };
  score = 1;
}

abbrev searcher : Searcher ℕ
searcher = record { plain = λ id question k. ok (one_hit ∷ []); filtered = none }

abbrev delta_of : Text → Bool → StreamChunk
delta_of text reasoning = record { delta = text; reasoning = reasoning; usage = none; error = none }

abbrev ask_env : AskEnv ℕ ℕ
ask_env = record {
  mode = "hybrid";
  top_k = 10;
  temperature = 7;
  retrievers = λ mode. some searcher;
  url_ok = true;
  get_ok = true;
  repos = ready_repo ∷ [];
  generate = λ messages t. ok (97 ∷ 98 ∷ [], none);
  generate_stream = λ messages t.
      ok (delta_of (104 ∷ []) true ∷ delta_of (97 ∷ []) false ∷ delta_of (98 ∷ []) false ∷ []);
  sink_ok = λ n. true;
}

abbrev question : AskRequest ℕ
question = record {
  repo_id = repo_a;
  repo_url = "";
  branch = "";
  question = "?";
  mode = "";
  top_k = some 50;
  temperature = none;
  path_filter = "";
  history = [];
}

abbrev digits : ℕ → Text
digits n = (n + 48) ∷ []

ask_stream-IsTranscript_example :
    IsTranscript tenths digits ask_env question (ask_stream tenths digits ask_env question)
ask_stream-IsTranscript_example = ask_stream-IsTranscript tenths digits ask_env question

abbrev two_turns : List ChatTurn
two_turns =
    record { role = "user"; content = 97 ∷ [] } ∷ record { role = "assistant"; content = [] } ∷ []

build_ask_prompt-IsBounded_example :
    (earlier : List ChatTurn) × (latest : List ChatTurn) × (quoted : Text) × (earlier ++ latest
      ≡ two_turns)
    × (length latest ≡ min 6 2)
    × All IsShort (map message_of_turn latest)
    × Quotes digits (one_hit ∷ []) quoted
    × (build_ask_prompt digits "?" (one_hit ∷ []) two_turns
        ≡ (record { role = "system"; content = text_of system_rules })
          ∷ (map message_of_turn latest
              ++ (record {
                role = "user";
                content = text_of "代码片段：" ++ (quoted ++ (text_of "\n\n问题：" ++ text_of "?"));
              })
                ∷ []))
build_ask_prompt-IsBounded_example = build_ask_prompt-IsBounded digits "?" (one_hit ∷ []) two_turns
