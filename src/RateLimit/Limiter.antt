-- ===== src/RateLimit/Limiter.antt =====
-- redisLimiter (deepwiki/internal/ratelimit/redis_lua.go) and fallbackLimiter (ratelimit/fallback.go).
-- Times are milliseconds. The token bucket of golang.org/x/time/rate is the interface `Buckets`.
pub mod Waiting
use godeepwiki.Common.{
  ℕ, ◌+◌, ◌-◌, ◌*◌, ◌/◌, min, Bool, true, false, not, String, List, [], ◌∷◌, Option, none, some,
  if◌then◌else◌, ltb, leb,
}
use godeepwiki.Common.Dict.{lookup, insert}
use godeepwiki.RateLimit.Window.{Member, Answer, sliding_window}

pub record Decision : Type 0 where
  pub allowed : Bool
  pub limit : ℕ
  pub remaining : ℕ
  pub reset_unix : ℕ
  pub retry_after : ℕ
  pub degraded : Bool

-- NewLimiter(Every(window / limit), limit), Allow, and int(Tokens()) with 0 for a negative number.
pub record Buckets (B : Type 0) : Type 0 where
  pub fresh : ℕ → ℕ → B
  pub allow : ℕ → B → Bool × B
  pub tokens : ℕ → B → ℕ

pub record Entry (B : Type 0) : Type 0 where
  pub bucket : B
  pub last_used : ℕ

-- What Redis does with one call of the script: it is out of reach, gives an answer of another form,
-- or answers. `oldest_ok` is about the ZRANGE that follows a refusal.
pub data Reach : Type 0 where
  down odd_reply answers : Reach

pub record AllowEnv : Type 0 where
  pub now : ℕ
  pub nonce : ℕ
  pub reach : Reach
  pub oldest_ok : Bool

-- ZRANGE key 0 0: the least score.
unfoldable pub oldest : List Member → Option ℕ
oldest [] = none
oldest (m ∷ ms) = elim (oldest ms) [ none ↦ some m.score | some s ↦ some (min m.score s) ]

unfoldable pub retry_after : Bool → ℕ → ℕ → List Member → ℕ
unfolding oldest
retry_after oldest_ok now window set =
    if oldest_ok then (elim (oldest set) [ none ↦ window | some s ↦ s + window - now ]) else window

module _ {B : Type 0} (buckets : Buckets B) where
  pub record RedisLimiter : Type 0 where
    pub windows : List (String × List Member)
    pub fallback : List (String × Entry B)
    pub degraded : Bool

  -- The bucket of the key, a new one if need be.
  unfoldable pub entry_of : String → ℕ → ℕ → List (String × Entry B) → B
  unfolding lookup
  entry_of key window limit entries = elim (lookup key entries) [
    | none ↦ buckets.fresh window limit
    | some e ↦ e.bucket
  ]

  unfoldable pub fallback_allow :
      ℕ → String → ℕ → ℕ → List (String × Entry B) → Decision × List (String × Entry B)
  unfolding entry_of insert
  fallback_allow now key window limit entries =
      let (allowed, bucket) = buckets.allow now (entry_of key window limit entries) in
      (
        record {
          allowed = allowed;
          limit = limit;
          remaining = min (buckets.tokens now bucket) limit;
          reset_unix = (now + window) / 1000;
          retry_after = if allowed then 0 else window / limit;
          degraded = true;
        },
        insert key (record { bucket = bucket; last_used = now }) entries,
      )

  -- One round of the janitor: buckets that were not used for ten minutes go.
  unfoldable pub sweep : ℕ → List (String × Entry B) → List (String × Entry B)
  sweep now [] = []
  sweep now ((key, e) ∷ rest) =
      let kept = sweep now rest in
      if ltb (e.last_used + 10 * 60 * 1000) now then kept else (key, e) ∷ kept

  abbrev pub set_of : String → RedisLimiter → List Member
  set_of key l = elim (lookup key l.windows) [ none ↦ [] | some set ↦ set ]

  abbrev degrade : ℕ → String → ℕ → ℕ → RedisLimiter → Decision × RedisLimiter
  degrade now key window limit l =
      let (d, entries) = fallback_allow now key window limit l.fallback in
      (d, record l { fallback = entries; degraded = true })

  abbrev decision_of : AllowEnv → ℕ → ℕ → Answer → List Member → Decision
  decision_of env window limit answer set = record {
    allowed = answer.admitted;
    limit = limit;
    remaining = answer.remaining;
    reset_unix = (env.now + window) / 1000;
    retry_after = if answer.admitted then 0 else retry_after env.oldest_ok env.now window set;
    degraded = false;
  }

  -- With Redis out of reach the decision is the fallback's; an answer ends the degraded state.
  unfoldable pub allow : AllowEnv → String → ℕ → ℕ → RedisLimiter → Decision × RedisLimiter
  unfolding sliding_window fallback_allow retry_after insert lookup
  allow env key window limit l =
      let (answer, set) =
        sliding_window window limit (record { score = env.now; nonce = env.nonce })
          (set_of key l) in
      let l' = record l { windows = insert key set l.windows } in
      elim env.reach [
        | down ↦ degrade env.now key window limit l
        | odd_reply ↦ degrade env.now key window limit l'
        | answers ↦ (decision_of env window limit answer set, record l' { degraded = false })
      ]
