-- ===== src/Service/Asking.antt =====
-- AskService (deepwiki/internal/service/ask_service.go): its data, the prompt and the references. A temperature, a float64, is the
-- interface `Temperatures`; a score is any type. `decimal` is how %d prints a number.
pub mod Prompt
pub mod Answering
pub mod Transcript
use godeepwiki.Common.{
  ℕ, zero, suc, ◌+◌, ◌-◌, ◌/◌, Bool, true, false, not, ◌||◌, String, List, [], ◌∷◌, ◌++◌, map,
  Option, none, some, or_else, str_eq, if◌then◌else◌, ltb, leb, length, take, drop, Result, ok, err,
  ◌>>=◌, ◌>>◌,
}
use Prim.Native.Char.{code}
use godeepwiki.Model.Chunk.{Chunk, Text}
use godeepwiki.Model.Repo.{Repo, repo_state_ready}
use godeepwiki.Model.Errors.{
  Error, api_error, wrapped, message_of, code_invalid_param, code_invalid_task_state,
  code_vector_store_unavailable, code_search_unavailable, code_llm_unavailable,
}
use godeepwiki.Store.Repos.{Repos, get_repo, get_by_url_branch}
use godeepwiki.Retriever.{ChunkHit}

abbrev pub text_of : String → Text
text_of String.[] = []
text_of (String.◌∷◌ c s) = code c ∷ text_of s

pub record ChatTurn : Type 0 where
  pub role : String
  pub content : Text

pub record ChatMessage : Type 0 where
  pub role : String
  pub content : Text

pub record Usage : Type 0 where
  pub prompt_tokens : ℕ
  pub completion_tokens : ℕ

pub record StreamChunk : Type 0 where
  pub delta : Text
  pub reasoning : Bool
  pub usage : Option Usage
  pub error : Option Error

pub record Temperatures (F : Type 0) : Type 0 where
  pub nothing : F
  pub two : F
  pub is_negative : F → Bool
  pub above_two : F → Bool

pub record AskRequest (F : Type 0) : Type 0 where
  pub repo_id : String
  pub repo_url : String
  pub branch : String
  pub question : String
  pub mode : String
  pub top_k : Option ℕ
  pub temperature : Option F
  pub path_filter : String
  pub history : List ChatTurn

pub record AskParams (F : Type 0) : Type 0 where
  pub mode : String
  pub top_k : ℕ
  pub temperature : F

-- Search of a repository, a question and a number of hits; SearchWithFilter if there is one.
pub record Searcher (S : Type 0) : Type 0 where
  pub plain : String → String → ℕ → Result Error (List (ChunkHit S))
  pub filtered : Option (String → String → ℕ → String → Result Error (List (ChunkHit S)))

pub record Reference (S : Type 0) : Type 0 where
  pub chunk_id : String
  pub path : String
  pub start_line : ℕ
  pub end_line : ℕ
  pub language : String
  pub score : S
  pub snippet : Text

-- What the sink gets.
pub data StreamEvent (S : Type 0) : Type 0 where
  references : String → List (Reference S) → StreamEvent S
  thinking token : Text → StreamEvent S
  finished : Usage → StreamEvent S

pub record AskResponse (S : Type 0) : Type 0 where
  pub answer : Text
  pub references : List (Reference S)
  pub mode : String
  pub usage : Usage

unfoldable pub truncate_runes : Text → ℕ → Text
truncate_runes s n = if leb (length s) n then s else take n s

unfoldable pub build_references : {S : Type 0} → List (ChunkHit S) → List (Reference S)
unfolding truncate_runes
build_references [] = []
build_references (h ∷ hs) =
    record {
      chunk_id = h.chunk.chunk_id;
      path = h.chunk.path;
      start_line = h.chunk.start_line;
      end_line = h.chunk.end_line;
      language = h.chunk.language;
      score = h.score;
      snippet = truncate_runes h.chunk.content 300;
    }
    ∷ build_references hs

unfoldable pub estimate_usage : Text → Text → Usage
estimate_usage completion prompt = record {
  prompt_tokens = (length prompt + 3) / 4;
  completion_tokens = (length completion + 3) / 4;
}

-- usageFromStream; usageFromResponse is the same for a usage that is there.
unfoldable pub usage_from_stream : Option Usage → Text → Usage
unfolding estimate_usage
usage_from_stream none answer = estimate_usage answer []
usage_from_stream (some u) answer =
    if ltb 0 u.prompt_tokens || ltb 0 u.completion_tokens then u else estimate_usage answer []

unfoldable pub map_llm_error : Error → Error
unfolding message_of
map_llm_error (api_error c m) = api_error c m
map_llm_error e = api_error code_llm_unavailable (message_of code_llm_unavailable)

unfoldable pub search_error : String → Error → Error
unfolding message_of
search_error mode (api_error c m) = api_error c m
search_error mode e =
    if str_eq mode "embedding"
    then api_error code_vector_store_unavailable (message_of code_vector_store_unavailable)
    else api_error code_search_unavailable (message_of code_search_unavailable)

abbrev pub system_rules : String
system_rules =
    "你是一个代码问答助手。你只能依据下面给出的代码片段回答问题。\n引用格式必须使用 [path:start-end]；禁止编造行号与文件路径。\n如果片段不足以回答，请回答“未在仓库中找到相关代码”。"

-- The last six turns.
abbrev pub recent : List ChatTurn → List ChatTurn
recent history = if ltb 6 (length history) then drop (length history - 6) history else history

abbrev pub message_of_turn : ChatTurn → ChatMessage
message_of_turn turn = record {
  role = if str_eq turn.role "assistant" then "assistant" else "user";
  content = truncate_runes turn.content 500;
}

module _ {S : Type 0} (decimal : ℕ → Text) where
  abbrev pub fragment : ChunkHit S → Text
  fragment h =
      text_of "\n--- "
      ++ (text_of h.chunk.path
          ++ (text_of ":"
              ++ (decimal h.chunk.start_line
                  ++ (text_of "-"
                      ++ (decimal h.chunk.end_line
                          ++ (text_of " ---\n" ++ (h.chunk.content ++ text_of "\n")))))))

  abbrev pub fragments : List (ChunkHit S) → Text
  fragments [] = []
  fragments (h ∷ hs) = fragment h ++ fragments hs

  unfoldable pub build_ask_prompt : String → List (ChunkHit S) → List ChatTurn → List ChatMessage
  unfolding truncate_runes
  build_ask_prompt question hits history =
      record { role = "system"; content = text_of system_rules }
        ∷ map message_of_turn (recent history)
      ++ (record {
        role = "user";
        content = text_of "代码片段：" ++ (fragments hits ++ (text_of "\n\n问题：" ++ text_of question));
      })
        ∷ []
