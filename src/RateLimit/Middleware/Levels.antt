-- ===== src/RateLimit/Middleware/Levels.antt =====
-- What the two levels decide together (deepwiki/internal/api/middleware/ratelimit.go).
use godeepwiki.Common.{
  ℕ, ◌+◌, ◌*◌, ◌≤◌, ◌≡◌, refl, Bool, true, false, not, ◌&&◌, ◌||◌, String, if◌then◌else◌, arith,
  Bool-cases, inl, inr,
}
use Prim.Native.String.{◌++◌}
use godeepwiki.Model.Errors.{code_rate_limited}
use godeepwiki.RateLimit.Limiter.{Decision}
use godeepwiki.RateLimit.Middleware.{
  RateLimitCategory, category_none, HttpRequest, RateLimits, Verdict, passed_on, rejected,
  category_of, l2_quota, l2_key, reject, second_level, middleware, minute_ms,
}

abbrev pub is_passed : Verdict → Bool
is_passed (passed_on d) = true
is_passed (rejected status code retry d) = false

-- 429 with the code of rate limiting, and at least one second to wait.
abbrev pub IsRefusal : Verdict → Type 0
IsRefusal (passed_on d) = Unit {0}
IsRefusal (rejected status code retry d) = (status ≡ 429) × (code ≡ code_rate_limited) × (1 ≤ retry)

abbrev pub is_none : RateLimitCategory → Bool
is_none category_none = true
is_none cat = false

reject-IsRefusal : (d : Decision) → IsRefusal (reject d)
unfolding reject
reject-IsRefusal d = ground arith

is_passed-reject : (d : Decision) → is_passed (reject d) ≡ false
unfolding reject
is_passed-reject d = refl

module _ (key_hash : String → String) {L : Type 0} (allow : String → ℕ → ℕ → L → Decision × L) where
  -- The decision of the first level, and that of the second on the state that the first left.
  abbrev pub first_of : RateLimits → HttpRequest → L → Decision × L
  first_of cfg req l = allow ("rl:ip:" ++ req.client_ip) minute_ms (cfg.rps * 60 + cfg.burst) l

  abbrev pub second_of : RateLimits → HttpRequest → L → Decision × L
  second_of cfg req l =
      let cat = category_of req in
      allow (l2_key key_hash req cat) (l2_quota cfg cat).0 (l2_quota cfg cat).1
        (first_of cfg req l).1

  -- The verdict that the two decisions give, and the state that is left.
  abbrev IsVerdict : Bool → Bool → Bool → L → L → Verdict × L → Type 0
  IsVerdict first free second l₁ l₂ v =
      (is_passed v.0 ≡ (first && (free || second)))
      × IsRefusal v.0
      × (v.1 ≡ (if first && not free then l₂ else l₁))

  second_level_lem :
      (cfg : RateLimits) (req : HttpRequest) (cat : RateLimitCategory) (d₁ : Decision) (l : L)
      → IsVerdict true
          (is_none cat)
          (allow (l2_key key_hash req cat) (l2_quota cfg cat).0 (l2_quota cfg cat).1 l).0.allowed
          l
          (allow (l2_key key_hash req cat) (l2_quota cfg cat).0 (l2_quota cfg cat).1 l).1
          (second_level key_hash allow cfg req cat d₁ l)
  unfolding second_level
  second_level_lem cfg req category_none d₁ l = (refl, tt, refl)
  second_level_lem cfg req cat d₁ l =
      let second = allow (l2_key key_hash req cat) (l2_quota cfg cat).0 (l2_quota cfg cat).1 l in
      elim (Bool-cases second.0.allowed) [
        | inl yes_it ↦ rw yes_it (refl, tt, refl)
        | inr no_it ↦ rw no_it (is_passed-reject second.0, reject-IsRefusal second.0, refl)
      ]

  -- A request is passed on exactly when the first level admits it, and the second level too unless
  -- the request has no category. A refusal is a 429 with the code 42901 and a Retry-After of at
  -- least one second. The second level is asked only when the first has admitted the request, so a
  -- request that the first refuses costs nothing of the key's quota.
  pub middleware_lem :
      (cfg : RateLimits) (req : HttpRequest) (l : L)
      → (is_passed (middleware key_hash allow cfg req l).0 ≡ (
          (first_of cfg req l).0.allowed
          && (is_none (category_of req) || (second_of cfg req l).0.allowed)))
        × IsRefusal (middleware key_hash allow cfg req l).0
        × ((middleware key_hash allow cfg req l).1 ≡ (
            if (first_of cfg req l).0.allowed && not (is_none (category_of req))
            then (second_of cfg req l).1
            else (first_of cfg req l).1))
  unfolding middleware
  middleware_lem cfg req l =
      elim (first_of cfg req l).0.allowed
        as (λ b.
          IsVerdict b (is_none (category_of req)) (second_of cfg req l).0.allowed
            (first_of cfg req l).1 (second_of cfg req l).1
            (if b
              then second_level key_hash allow cfg req (category_of req) (first_of cfg req l).0
                  (first_of cfg req l).1
              else (reject (first_of cfg req l).0, (first_of cfg req l).1))) [
                | true ↦
                    second_level_lem cfg req (category_of req) (first_of cfg req l).0
                      (first_of cfg req l).1
                | false ↦ (
                  is_passed-reject (first_of cfg req l).0,
                  reject-IsRefusal (first_of cfg req l).0,
                  refl,
                )
              ]
