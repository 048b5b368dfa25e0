-- ===== src/RateLimit/Limiter/Waiting.antt =====
-- After the time that a refusal names there is room (deepwiki/internal/ratelimit/redis_lua.go).
use godeepwiki.Common.{
  ℕ, ◌+◌, ◌≤◌, ◌<◌, ◌≡◌, ◌≢◌, ap, sym, ◌∙◌, true, false, List, [], ◌∷◌, none, some, length, arith,
  inl, inr, String, Option-cases,
}
use godeepwiki.Common.Dict.{lookup, insert}
use godeepwiki.Common.{eq_iff}
use godeepwiki.RateLimit.Window.{Member, Answer, sliding_window, trim}
use godeepwiki.RateLimit.Limiter.{
  Buckets, AllowEnv, RedisLimiter, answers, allow, oldest, retry_after, set_of,
}

length-trim-le : (window t : ℕ) (set : List Member) → length (trim window t set) ≤ length set
unfolding trim
length-trim-le window t [] = omega arith
length-trim-le window t (m ∷ set) = ground (arith, length-trim-le window t set)

-- Once the oldest member has left the window, the set is shorter.
trim-oldest :
    (window t s : ℕ) (set : List Member)
    → oldest set ≡ some s
    → s + window ≤ t
    → length (trim window t set) < length set
unfolding trim oldest
trim-oldest window t s [] h late = ground arith
trim-oldest window t s (m ∷ set) h late = elim (Option-cases (oldest set)) [
  | inl e ↦ ground (arith, length-trim-le window t set)
  | inr (a, e) ↦ ground (arith, length-trim-le window t set, trim-oldest window t a set)
]

oldest-some : (m : Member) (set : List Member) → oldest (m ∷ set) ≢ none
unfolding oldest
oldest-some m set h = ground arith

waiting_lem :
    (now window s : ℕ) (set : List Member)
    → oldest set ≡ some s
    → s + window ≤ now + retry_after true now window set
unfolding retry_after
waiting_lem now window s set e = rw e (omega arith)

-- `kept` is the full set that a refusal leaves.
room_later :
    (window limit now later : ℕ) (kept : List Member)
    → 0 < limit
    → length kept ≡ limit
    → now + retry_after true now window kept ≤ later
    → length (trim window later kept) < limit
room_later window limit now later [] pos full late = absurd (omega arith)
room_later window limit now later (m ∷ set) pos full late = elim (Option-cases (oldest (m ∷ set))) [
  | inl e ↦ absurd (oldest-some m set e)
  | inr (s, e) ↦
      let bound = trim-oldest window later s (m ∷ set) e in
      ground (arith, bound (omega (arith, waiting_lem now window s (m ∷ set) e)))
]

sliding_window-refused :
    (window limit : ℕ) (r : Member) (set : List Member)
    → length (trim window r.score set) ≤ limit
    → (sliding_window window limit r set).0.admitted ≡ false
    → ((sliding_window window limit r set).1 ≡ trim window r.score set)
      × (length (trim window r.score set) ≡ limit)
unfolding sliding_window
sliding_window-refused window limit r set le h = ground arith

sliding_window-admitted :
    (window limit : ℕ) (r : Member) (set : List Member)
    → length (trim window r.score set) < limit
    → (sliding_window window limit r set).0.admitted ≡ true
unfolding sliding_window
sliding_window-admitted window limit r set lt = ground arith

module _ {B : Type 0} (buckets : Buckets B) where
  abbrev asked : AllowEnv → String → ℕ → ℕ → RedisLimiter buckets → Answer × List Member
  asked env key window limit l =
      sliding_window window limit (record { score = env.now; nonce = env.nonce })
        (set_of buckets key l)

  allow-admitted :
      (env : AllowEnv) (key : String) (window limit : ℕ) (l : RedisLimiter buckets)
      → env.reach ≡ answers
      → (allow buckets env key window limit l).0.allowed ≡ (asked env key window limit l).0.admitted
  unfolding allow
  allow-admitted env key window limit l up = rw up

  allow-set :
      (env : AllowEnv) (key : String) (window limit : ℕ) (l : RedisLimiter buckets)
      → env.reach ≡ answers
      → set_of buckets key (allow buckets env key window limit l).1
        ≡ (asked env key window limit l).1
  unfolding allow insert lookup
  allow-set env key window limit l up = ground (arith, eq_iff key key)

  allow-retry :
      (env : AllowEnv) (key : String) (window limit : ℕ) (l : RedisLimiter buckets)
      → env.reach ≡ answers
      → env.oldest_ok ≡ true
      → (asked env key window limit l).0.admitted ≡ false
      → (allow buckets env key window limit l).0.retry_after
        ≡ retry_after true env.now window (asked env key window limit l).1
  unfolding allow
  allow-retry env key window limit l up found refused = rw up (rw found (rw refused))

  -- Redis refuses a request, and finds the oldest member. If nothing else comes for the key in
  -- between, and Redis still answers, a request that comes when the time of `retry_after` has passed, or later, is admitted.
  -- The limit is not 0, and the window holds no more than the limit, as it does unless the limit
  -- was lowered.
  pub retry_after-enough :
      (env env' : AllowEnv) (key : String) (window limit : ℕ) (l : RedisLimiter buckets)
      → env.reach ≡ answers
      → env'.reach ≡ answers
      → env.oldest_ok ≡ true
      → 0 < limit
      → length (trim window env.now (set_of buckets key l)) ≤ limit
      → (allow buckets env key window limit l).0.allowed ≡ false
      → env.now + (allow buckets env key window limit l).0.retry_after ≤ env'.now
      → (allow buckets env' key window limit (allow buckets env key window limit l).1).0.allowed
        ≡ true
  retry_after-enough env env' key window limit l up up' found pos le refused wait =
      let no = sym (allow-admitted env key window limit l up) ∙ refused in
      let kept =
        sliding_window-refused window limit (record { score = env.now; nonce = env.nonce })
          (set_of buckets key l) le no in
      rw (allow-admitted env' key window limit (allow buckets env key window limit l).1 up') (
        rw (allow-set env key window limit l up) (
          sliding_window-admitted window limit (record { score = env'.now; nonce = env'.nonce })
            (asked env key window limit l).1
            (room_later window limit env.now env'.now (asked env key window limit l).1 pos
              (ap length kept.0 ∙ kept.1)
              (rw (← allow-retry env key window limit l up found no) wait))))
