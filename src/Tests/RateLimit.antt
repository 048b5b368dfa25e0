-- ===== src/Tests/RateLimit.antt =====
-- The theorems on rate limiting at concrete inputs.
use godeepwiki.Common.{
  ℕ, ◌-◌, ◌≤◌, ◌≡◌, refl, true, false, not, ◌&&◌, ◌||◌, String, List, [], ◌∷◌, if◌then◌else◌, ltb,
  length, count_if, arith,
}
use godeepwiki.Common.Dict.{lookup}
use godeepwiki.RateLimit.Window.{Member, is_member, trim, sliding_window, serve_all, empty_log}
use godeepwiki.RateLimit.Window.Quota.{
  in_window, admit_all, serve_all-bounded, serve_all-eq-admit_all, IsSchedule,
}
use godeepwiki.RateLimit.Window.Collisions.{repeat, serve_all-unbounded}
use godeepwiki.RateLimit.Limiter.{
  Decision, Buckets, AllowEnv, RedisLimiter, answers, allow, oldest, retry_after,
}
use godeepwiki.RateLimit.Limiter.Waiting.{retry_after-enough}
use godeepwiki.RateLimit.Middleware.{RateLimits, HttpRequest, category_of, middleware}
use godeepwiki.RateLimit.Middleware.Levels.{
  IsRefusal, is_passed, is_none, first_of, second_of, middleware_lem,
}

abbrev at : ℕ → ℕ → Member
at score nonce = record { score = score; nonce = nonce }

abbrev four_requests : List Member
four_requests = at 1 7 ∷ at 5 3 ∷ at 9 7 ∷ at 12 1 ∷ []

four_requests-IsSchedule : IsSchedule 0 [] four_requests
unfolding is_member
four_requests-IsSchedule =
    (omega arith, refl, (omega arith, refl, (omega arith, refl, (omega arith, refl, tt))))

serve_all-bounded_example :
    count_if (in_window 10 13) (serve_all 10 2 empty_log four_requests).passed ≤ 2
serve_all-bounded_example =
    serve_all-bounded 10 2 (omega arith) four_requests 13 four_requests-IsSchedule

serve_all-eq-admit_all_example :
    (serve_all 10 2 empty_log four_requests).passed ≡ admit_all 10 2 [] four_requests
serve_all-eq-admit_all_example =
    serve_all-eq-admit_all 10 2 (omega arith) four_requests four_requests-IsSchedule

serve_all-unbounded_example : length (serve_all 10 2 empty_log (repeat 5 (at 3 4))).passed ≡ 5
serve_all-unbounded_example = serve_all-unbounded 10 2 5 (at 3 4) (omega arith) (omega arith)

-- A bucket that is never filled again.
abbrev draining : Buckets ℕ
draining = record {
  fresh = λ window limit. limit;
  allow = λ now b. if ltb 0 b then (true, b - 1) else (false, 0);
  tokens = λ now b. b;
}

abbrev env_at : ℕ → AllowEnv
env_at now = record { now = now; nonce = now; reach = answers; oldest_ok = true }

abbrev used_limiter : RedisLimiter draining
used_limiter = record { windows = ("rl:ip:a", at 95 2 ∷ []) ∷ []; fallback = []; degraded = false }

retry_after-enough_example :
    (allow draining
      (env_at 105)
      "rl:ip:a"
      10
      1
      (allow draining (env_at 100) "rl:ip:a" 10 1 used_limiter).1).0.allowed
    ≡ true
unfolding allow oldest retry_after sliding_window trim lookup
retry_after-enough_example =
    retry_after-enough draining (env_at 100) (env_at 105) "rl:ip:a" 10 1 used_limiter refl refl refl
      (omega arith) (omega arith) refl (omega arith)

abbrev plain_hash : String → String
plain_hash key = key

abbrev allow_at_100 : String → ℕ → ℕ → RedisLimiter draining → Decision × RedisLimiter draining
allow_at_100 key window limit l = allow draining (env_at 100) key window limit l

abbrev limits : RateLimits
limits = record { rps = 1; burst = 0; ingest_per_hour = 1; ask_per_minute = 30; wiki_per_hour = 1 }

abbrev ask_request : HttpRequest
ask_request = record {
  method = "POST";
  full_path = "/api/v1/ask";
  client_ip = "a";
  api_key = "secret";
}

middleware_lem_example :
    (is_passed (middleware plain_hash allow_at_100 limits ask_request used_limiter).0 ≡ (
      (first_of plain_hash allow_at_100 limits ask_request used_limiter).0.allowed
      && (is_none (category_of ask_request)
          || (second_of plain_hash allow_at_100 limits ask_request used_limiter).0.allowed)))
    × IsRefusal (middleware plain_hash allow_at_100 limits ask_request used_limiter).0
    × ((middleware plain_hash allow_at_100 limits ask_request used_limiter).1 ≡ (
        if (first_of plain_hash allow_at_100 limits ask_request used_limiter).0.allowed
          && not (is_none (category_of ask_request))
        then (second_of plain_hash allow_at_100 limits ask_request used_limiter).1
        else (first_of plain_hash allow_at_100 limits ask_request used_limiter).1))
middleware_lem_example = middleware_lem plain_hash allow_at_100 limits ask_request used_limiter
