-- ===== src/Model/Errors.antt =====
-- deepwiki/internal/model/errors.go: error codes, their HTTP status and message, and the sentinel
-- errors that cross the layers.
pub mod Status
use godeepwiki.Common.{
  ℕ, String, Bool, true, false, List, [], ◌∷◌, Option, none, ◌==◌, ◌||◌, if◌then◌else◌, str_eq,
}

abbrev pub code_invalid_param : ℕ
code_invalid_param = 40001

abbrev pub code_unauthorized : ℕ
code_unauthorized = 40101

abbrev pub code_forbidden : ℕ
code_forbidden = 40301

abbrev pub code_task_not_found : ℕ
code_task_not_found = 40401

abbrev pub code_repo_not_found : ℕ
code_repo_not_found = 40402

abbrev pub code_wiki_not_found : ℕ
code_wiki_not_found = 40403

abbrev pub code_repo_already_exists : ℕ
code_repo_already_exists = 40901

abbrev pub code_invalid_task_state : ℕ
code_invalid_task_state = 40902

abbrev pub code_config_validation_failed : ℕ
code_config_validation_failed = 42201

abbrev pub code_rate_limited : ℕ
code_rate_limited = 42901

abbrev pub code_queue_full : ℕ
code_queue_full = 42902

abbrev pub code_internal_error : ℕ
code_internal_error = 50001

abbrev pub code_task_interrupted : ℕ
code_task_interrupted = 50004

abbrev pub code_llm_unavailable : ℕ
code_llm_unavailable = 50201

abbrev pub code_embedding_unavailable : ℕ
code_embedding_unavailable = 50202

abbrev pub code_service_not_ready : ℕ
code_service_not_ready = 50301

abbrev pub code_vector_store_unavailable : ℕ
code_vector_store_unavailable = 50203

abbrev pub code_queue_unavailable : ℕ
code_queue_unavailable = 50302

abbrev pub code_search_unavailable : ℕ
code_search_unavailable = 50303

abbrev pub code_config_store_unavailable : ℕ
code_config_store_unavailable = 50304

-- The cases of the `switch`; the last line is `default`.
unfoldable pub http_status_of : ℕ → ℕ
http_status_of code =
    if code == code_invalid_param
    then 400
    else if code == code_unauthorized
    then 401
    else if code == code_forbidden
    then 403
    else if code == code_task_not_found
        || (code == code_repo_not_found || code == code_wiki_not_found)
    then 404
    else if code == code_repo_already_exists || code == code_invalid_task_state
    then 409
    else if code == code_config_validation_failed
    then 422
    else if code == code_rate_limited || code == code_queue_full
    then 429
    else if code == code_llm_unavailable
        || (code == code_embedding_unavailable || code == code_vector_store_unavailable)
    then 502
    else if code == code_service_not_ready
        || (code == code_queue_unavailable
            || (code == code_search_unavailable || code == code_config_store_unavailable))
    then 503
    else 500

unfoldable pub message_of : ℕ → String
message_of code =
    if code == code_invalid_param
    then "invalid param"
    else if code == code_unauthorized
    then "unauthorized"
    else if code == code_forbidden
    then "forbidden"
    else if code == code_task_not_found
    then "task not found"
    else if code == code_repo_not_found
    then "repo not found"
    else if code == code_wiki_not_found
    then "wiki not found"
    else if code == code_repo_already_exists
    then "repo already exists"
    else if code == code_invalid_task_state
    then "invalid task state"
    else if code == code_config_validation_failed
    then "config validation failed"
    else if code == code_rate_limited
    then "rate limited"
    else if code == code_queue_full
    then "queue full"
    else if code == code_task_interrupted
    then "task interrupted"
    else if code == code_llm_unavailable
    then "llm unavailable"
    else if code == code_embedding_unavailable
    then "embedding unavailable"
    else if code == code_service_not_ready
    then "service not ready"
    else if code == code_queue_unavailable
    then "任务队列暂不可用，请稍后重试"
    else if code == code_search_unavailable
    then "检索服务暂不可用"
    else if code == code_config_store_unavailable
    then "配置中心暂不可用"
    else if code == code_vector_store_unavailable
    then "向量检索暂不可用"
    else "internal error"

pub record ErrorDetail : Type 0 where
  pub field : String
  pub issue : String
  pub existing_repo_id : String

-- What `error` values of the modelled code are: the sentinels, an `APIError`, the cancellation of a
-- context, or an error of an outer system that is only passed on.
pub data Error : Type 0 where
  queue_full invalid_task_state task_not_found repo_not_found wiki_not_found : Error
  repo_already_exists vector_store_unavailable queue_unavailable search_unavailable : Error
  config_store_unavailable : Error
  api_error : ℕ → String → Error
  context_canceled deadline_exceeded : Error
  wrapped : String → Error

-- `NewAPIError`: an empty message takes the code's own.
unfoldable pub new_api_error : ℕ → String → Error
unfolding message_of
new_api_error code message = api_error code (if str_eq message "" then message_of code else message)
