-- ===== src/Service/Asking/Answering.antt =====
-- Ask and AskStream (deepwiki/internal/service/ask_service.go).
use godeepwiki.Common.{
  ℕ, Bool, true, false, not, String, List, [], ◌∷◌, ◌++◌, Option, none, some, or_else, str_eq,
  if◌then◌else◌, ltb, length, Result, ok, err, ◌>>=◌, ◌>>◌,
}
use godeepwiki.Model.Chunk.{Text}
use godeepwiki.Model.Repo.{Repo, repo_state_ready}
use godeepwiki.Model.Errors.{Error, api_error, wrapped, code_invalid_param, code_invalid_task_state}
use godeepwiki.Store.Repos.{Repos, get_repo, get_by_url_branch}
use godeepwiki.Retriever.{ChunkHit}
use godeepwiki.Service.Asking.{
  ChatMessage, Usage, StreamChunk, Temperatures, AskRequest, AskParams, Searcher, StreamEvent,
  references, thinking, token, finished, AskResponse, build_references, usage_from_stream,
  map_llm_error, search_error, build_ask_prompt,
}

-- The configuration and the outer systems of one call. `generate` and `generate_stream` are the
-- language model, and `sink_ok n` whether the sink takes an event after n others.
pub record AskEnv (F S : Type 0) : Type 0 where
  pub mode : String
  pub top_k : ℕ
  pub temperature : F
  pub retrievers : String → Option (Searcher S)
  pub url_ok : Bool
  pub get_ok : Bool
  pub repos : Repos
  pub generate : List ChatMessage → F → Result Error (Text × Option Usage)
  pub generate_stream : List ChatMessage → F → Result Error (List StreamChunk)
  pub sink_ok : ℕ → Bool

module _ {F S : Type 0} (temperatures : Temperatures F) (decimal : ℕ → Text)
    (env : AskEnv F S) where
  abbrev clamped_k : ℕ → ℕ
  clamped_k k = if ltb k 1 then 1 else if ltb 30 k then 30 else k

  abbrev clamped_temperature : F → F
  clamped_temperature t =
      if temperatures.is_negative t
      then temperatures.nothing
      else if temperatures.above_two t
      then temperatures.two
      else t

  unfoldable pub normalize_ask_params : AskRequest F → Result Error (AskParams F)
  normalize_ask_params req =
      let mode = if str_eq req.mode "" then env.mode else req.mode in
      elim (env.retrievers mode) [
        | none ↦ err (api_error code_invalid_param "invalid mode")
        | some r ↦ ok (record {
          mode = mode;
          top_k = clamped_k (elim req.top_k [ none ↦ env.top_k | some k ↦ k ]);
          temperature =
              clamped_temperature (elim req.temperature [ none ↦ env.temperature | some t ↦ t ]);
        })
      ]

  abbrev id_of : Result Error Repo → Result Error String
  id_of (err e) = err e
  id_of (ok r) = ok r.repo_id

  unfoldable pub resolve_repo_id : AskRequest F → Result Error String
  unfolding get_by_url_branch
  resolve_repo_id req =
      if not (str_eq req.repo_id "")
      then ok req.repo_id
      else if str_eq req.repo_url ""
      then err (api_error code_invalid_param "repo_id or repo_url is required")
      else id_of (get_by_url_branch env.url_ok req.repo_url req.branch env.repos)

  abbrev ready : Result Error Repo → Result Error (Unit {0})
  ready (err e) = err e
  ready (ok r) =
      if str_eq r.state repo_state_ready
      then ok tt
      else err (api_error code_invalid_task_state "repo is not ready")

  unfoldable pub ensure_repo_ready : String → Result Error (Unit {0})
  unfolding get_repo
  ensure_repo_ready id = ready (get_repo env.get_ok id env.repos)

  abbrev searched : String → Result Error (List (ChunkHit S)) → Result Error (List (ChunkHit S))
  searched mode (err e) = err (search_error mode e)
  searched mode (ok hits) = ok hits

  -- A filter is passed on to a retriever that takes one.
  abbrev search_by : Searcher S → String → String → ℕ → String → Result Error (List (ChunkHit S))
  search_by r id question k filter = elim r.filtered [
    | none ↦ r.plain id question k
    | some f ↦ if str_eq filter "" then r.plain id question k else f id question k filter
  ]

  unfoldable pub search : String → String → String → ℕ → String → Result Error (List (ChunkHit S))
  unfolding search_error
  search mode id question k filter = elim (env.retrievers mode) [
    | none ↦ err (api_error code_invalid_param "invalid mode")
    | some r ↦ searched mode (search_by r id question k filter)
  ]

  -- The steps that Ask and AskStream share: the parameters with the hits.
  unfoldable pub prepare : AskRequest F → Result Error (AskParams F × List (ChunkHit S))
  unfolding normalize_ask_params resolve_repo_id ensure_repo_ready search
  prepare req = do
    p ← normalize_ask_params req
    id ← resolve_repo_id req
    ensure_repo_ready id
    hits ← search p.mode id req.question p.top_k req.path_filter
    ok (p, hits)

  abbrev pub prompt_of : AskRequest F → List (ChunkHit S) → List ChatMessage
  prompt_of req hits = build_ask_prompt decimal req.question hits req.history

  abbrev pub answered :
      AskParams F
      → List (ChunkHit S)
      → Result Error (Text × Option Usage)
      → Result Error (AskResponse S)
  answered p hits (err e) = err (map_llm_error e)
  answered p hits (ok (content, usage)) = ok (record {
    answer = content;
    references = build_references hits;
    mode = p.mode;
    usage = usage_from_stream usage content;
  })

  abbrev pub asked :
      AskRequest F → Result Error (AskParams F × List (ChunkHit S)) → Result Error (AskResponse S)
  asked req (err e) = err e
  asked req (ok (p, hits)) = answered p hits (env.generate (prompt_of req hits) p.temperature)

  unfoldable pub ask : AskRequest F → Result Error (AskResponse S)
  unfolding prepare build_references map_llm_error usage_from_stream build_ask_prompt
  ask req = asked req (prepare req)

  abbrev pub Events : Type 0
  Events = List (StreamEvent S)

  abbrev pub Streamed : Type 0
  Streamed = Result Error (Unit {0}) × Events

  -- One call of the sink, and what follows if it works.
  unfoldable pub sent : StreamEvent S → (Events → Streamed) → Events → Streamed
  sent e rest events =
      if env.sink_ok (length events)
      then rest (events ++ e ∷ [])
      else (err (wrapped "sink"), events)

  -- A chunk without an error. The usage of a chunk of reasoning is not looked at.
  unfoldable pub delta_taken :
      Text
      → Bool
      → Option Usage
      → (Text → Option Usage → Events → Streamed)
      → Text
      → Option Usage
      → Events
      → Streamed
  unfolding sent
  delta_taken [] reasoning next rest answer usage events = rest answer (or_else next usage) events
  delta_taken (d ∷ ds) true next rest answer usage events =
      sent (thinking (d ∷ ds)) (rest answer usage) events
  delta_taken (d ∷ ds) false next rest answer usage events =
      sent (token (d ∷ ds)) (rest (answer ++ d ∷ ds) (or_else next usage)) events

  unfoldable pub chunk_taken :
      StreamChunk
      → Option Error
      → (Text → Option Usage → Events → Streamed)
      → Text
      → Option Usage
      → Events
      → Streamed
  unfolding delta_taken map_llm_error
  chunk_taken c (some e) rest answer usage events = (err (map_llm_error e), events)
  chunk_taken c none rest answer usage events =
      delta_taken c.delta c.reasoning c.usage rest answer usage events

  unfoldable pub take_chunks : List StreamChunk → Text → Option Usage → Events → Streamed
  unfolding chunk_taken sent usage_from_stream
  take_chunks [] answer usage events =
      sent (finished (usage_from_stream usage answer)) (λ after. (ok tt, after)) events
  take_chunks (c ∷ cs) answer usage events =
      let rest = take_chunks cs in chunk_taken c c.error rest answer usage events

  abbrev pub opened : Result Error (List StreamChunk) → Events → Streamed
  opened (err e) events = (err (map_llm_error e), events)
  opened (ok chunks) events = take_chunks chunks [] none events

  abbrev pub streamed : AskRequest F → Result Error (AskParams F × List (ChunkHit S)) → Streamed
  streamed req (err e) = (err e, [])
  streamed req (ok (p, hits)) =
      sent (references p.mode (build_references hits))
        (opened (env.generate_stream (prompt_of req hits) p.temperature)) []

  unfoldable pub ask_stream : AskRequest F → Streamed
  unfolding prepare take_chunks sent build_references map_llm_error build_ask_prompt
  ask_stream req = streamed req (prepare req)
