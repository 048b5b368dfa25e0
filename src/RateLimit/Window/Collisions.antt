-- ===== src/RateLimit/Window/Collisions.antt =====
-- Requests of one millisecond for which the script draws one random number
-- (deepwiki/internal/ratelimit/redis_lua.go): Redis seeds math.random alike for every run of a script.
use godeepwiki.Common.{ℕ, zero, suc, ◌+◌, ◌≤◌, ◌<◌, ◌≡◌, refl, List, [], ◌∷◌, length, arith}
use godeepwiki.RateLimit.Window.{
  Member, is_member, same_member, trim, zadd, sliding_window, serve, serve_all, empty_log,
}

abbrev pub repeat : ℕ → Member → List Member
repeat zero r = []
repeat (suc n) r = r ∷ repeat n r

serve_again :
    (window limit : ℕ) (r : Member) (passed : List Member)
    → 0 < window
    → 2 ≤ limit
    → serve window limit (record { set = r ∷ []; passed = passed }) r
      ≡ record { set = r ∷ []; passed = r ∷ passed }
unfolding serve sliding_window zadd trim is_member same_member
serve_again window limit r passed w l = ground arith

serve_first :
    (window limit : ℕ) (r : Member)
    → 2 ≤ limit
    → serve window limit empty_log r ≡ record { set = r ∷ []; passed = r ∷ [] }
unfolding serve sliding_window zadd trim is_member
serve_first window limit r l = ground arith

serve_repeated :
    (window limit n : ℕ) (r : Member) (passed : List Member)
    → 0 < window
    → 2 ≤ limit
    → length (serve_all window limit (record { set = r ∷ []; passed = passed }) (repeat n r)).passed
      ≡ n + length passed
unfolding serve_all
serve_repeated window limit zero r passed w l = omega arith
serve_repeated window limit (suc n) r passed w l =
    rw (serve_again window limit r passed w l, length)
      (omega (arith, serve_repeated window limit n r (r ∷ passed) w l))

-- With a limit of two or more, any number of requests of one time and one random number is
-- admitted: the set holds them as a single member.
pub serve_all-unbounded :
    (window limit n : ℕ) (r : Member)
    → 0 < window
    → 2 ≤ limit
    → length (serve_all window limit empty_log (repeat n r)).passed ≡ n
unfolding serve_all
serve_all-unbounded window limit zero r w l = refl
serve_all-unbounded window limit (suc n) r w l =
    rw (serve_first window limit r l, length)
      (omega (arith, serve_repeated window limit n r (r ∷ []) w l))
