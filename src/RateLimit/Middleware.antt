-- ===== src/RateLimit/Middleware.antt =====
-- RateLimiter (deepwiki/internal/api/middleware/ratelimit.go) over any limiter. `key_hash` is the
-- SHA-256 of an API key in hexadecimal digits. Durations are milliseconds.
pub mod Levels
use godeepwiki.Common.{
  ℕ, ◌+◌, ◌*◌, ◌/◌, ◌≡◌, ◌≤◌, ◌≢◌, refl, Bool, true, false, not, ◌&&◌, ◌||◌, String, List, [], ◌∷◌,
  Option, none, some, if◌then◌else◌, ltb, str_eq, arith, Bool-cases, inl, inr,
}
use Prim.Native.String.{◌++◌}
use godeepwiki.RateLimit.Limiter.{Decision}
use godeepwiki.Model.Errors.{code_rate_limited}

pub data RateLimitCategory : Type 0 where
  category_none category_ingest category_ask category_wiki : RateLimitCategory

unfoldable pub category_text : RateLimitCategory → String
category_text category_ingest = "ingest"
category_text category_ask = "ask"
category_text category_wiki = "wiki"
category_text category_none = ""

-- The parts of the request that the middleware reads.
pub record HttpRequest : Type 0 where
  pub method : String
  pub full_path : String
  pub client_ip : String
  pub api_key : String

pub record RateLimits : Type 0 where
  pub rps : ℕ
  pub burst : ℕ
  pub ingest_per_hour : ℕ
  pub ask_per_minute : ℕ
  pub wiki_per_hour : ℕ

unfoldable pub category_of : HttpRequest → RateLimitCategory
category_of req =
    if not (str_eq req.method "POST")
    then category_none
    else if str_eq req.full_path "/api/v1/ingest"
        || str_eq req.full_path "/api/v1/repos/:repo_id/refresh"
    then category_ingest
    else if str_eq req.full_path "/api/v1/ask" || str_eq req.full_path "/api/v1/ask/stream"
    then category_ask
    else if str_eq req.full_path "/api/v1/wiki/generate"
    then category_wiki
    else category_none

abbrev pub minute_ms : ℕ
minute_ms = 60 * 1000

abbrev pub hour_ms : ℕ
hour_ms = 60 * 60 * 1000

unfoldable pub l2_quota : RateLimits → RateLimitCategory → ℕ × ℕ
l2_quota cfg category_ingest = (hour_ms, cfg.ingest_per_hour)
l2_quota cfg category_ask = (minute_ms, cfg.ask_per_minute)
l2_quota cfg category_wiki = (hour_ms, cfg.wiki_per_hour)
l2_quota cfg category_none = (minute_ms, 0)

-- The request is passed on, or answered with a status, a code and the seconds of Retry-After. The
-- headers X-RateLimit-* are those of the decision.
pub data Verdict : Type 0 where
  passed_on : Decision → Verdict
  rejected : (status code retry : ℕ) → Decision → Verdict

unfoldable pub reject : Decision → Verdict
reject d =
    let retry = d.retry_after / 1000 in
    rejected 429 code_rate_limited (if ltb retry 1 then 1 else retry) d

module _ (key_hash : String → String) where
  unfoldable pub l2_key : HttpRequest → RateLimitCategory → String
  unfolding category_text
  l2_key req cat =
      if str_eq req.api_key ""
      then "rl:ip:" ++ (req.client_ip ++ (":" ++ category_text cat))
      else "rl:key:" ++ (key_hash req.api_key ++ (":" ++ category_text cat))

  module _ {L : Type 0} (allow : String → ℕ → ℕ → L → Decision × L) where
    -- The second level, for a request of a category.
    unfoldable pub second_level :
        RateLimits → HttpRequest → RateLimitCategory → Decision → L → Verdict × L
    unfolding l2_quota l2_key reject
    second_level cfg req category_none d₁ l = (passed_on d₁, l)
    second_level cfg req cat d₁ l =
        let (d, l') = allow (l2_key req cat) (l2_quota cfg cat).0 (l2_quota cfg cat).1 l in
        (if d.allowed then passed_on d else reject d, l')

    unfoldable pub middleware : RateLimits → HttpRequest → L → Verdict × L
    unfolding second_level category_of reject
    middleware cfg req l =
        let (d₁, l₁) = allow ("rl:ip:" ++ req.client_ip) minute_ms (cfg.rps * 60 + cfg.burst) l in
        if d₁.allowed then second_level cfg req (category_of req) d₁ l₁ else (reject d₁, l₁)
