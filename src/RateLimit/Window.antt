-- ===== src/RateLimit/Window.antt =====
-- The script slidingWindowLua (deepwiki/internal/ratelimit/redis_lua.go). The sorted set of a key is a
-- list of its members; a member's text is made of its score, which is the time in milliseconds, and
-- of a random number, so two members with the same two numbers are one. PEXPIRE drops the key when a
-- window has passed since its last member, and by then every member would be trimmed.
pub mod Quota
pub mod Collisions
use godeepwiki.Common.{
  ℕ, ◌+◌, ◌-◌, Bool, true, false, ◌&&◌, ◌||◌, List, [], ◌∷◌, if◌then◌else◌, ◌==◌, ltb, length,
  select,
}

pub record Member : Type 0 where
  pub score : ℕ
  pub nonce : ℕ

unfoldable pub same_member : Member → Member → Bool
same_member a b = a.score == b.score && a.nonce == b.nonce

unfoldable pub is_member : Member → List Member → Bool
unfolding same_member
is_member m [] = false
is_member m (x ∷ xs) = same_member x m || is_member m xs

-- ZADD: a member that is there keeps its place, with the same score.
unfoldable pub zadd : Member → List Member → List Member
unfolding is_member
zadd m set = if is_member m set then set else m ∷ set

-- ZREMRANGEBYSCORE key 0 (now - window)
unfoldable pub trim : ℕ → ℕ → List Member → List Member
trim window now set = select (λ m. ltb now (m.score + window)) set

-- The script's answer: admitted or not, and what remains of the quota.
pub record Answer : Type 0 where
  pub admitted : Bool
  pub remaining : ℕ

unfoldable pub sliding_window : ℕ → ℕ → Member → List Member → Answer × List Member
unfolding trim zadd
sliding_window window limit request set =
    let kept = trim window request.score set in
    if ltb (length kept) limit
    then (record { admitted = true; remaining = limit - length kept - 1 }, zadd request kept)
    else (record { admitted = false; remaining = 0 }, kept)

-- A key's set with the requests that were admitted so far, the latest first.
pub record Log : Type 0 where
  pub set : List Member
  pub passed : List Member

unfoldable pub serve : ℕ → ℕ → Log → Member → Log
unfolding sliding_window
serve window limit log request =
    let (answer, set) = sliding_window window limit request log.set in
    record { set = set; passed = if answer.admitted then request ∷ log.passed else log.passed }

unfoldable pub serve_all : ℕ → ℕ → Log → List Member → Log
unfolding serve
serve_all window limit log [] = log
serve_all window limit log (r ∷ rs) = serve_all window limit (serve window limit log r) rs

abbrev pub empty_log : Log
empty_log = record { set = []; passed = [] }
