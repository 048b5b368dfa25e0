-- ===== src/RateLimit/Window/Quota.antt =====
-- The window never holds more than its limit, and the script refuses no request that fits
-- (deepwiki/internal/ratelimit/redis_lua.go).
use godeepwiki.Common.{
  ℕ, ◌+◌, ◌≤◌, ◌<◌, ◌≡◌, refl, ap, ◌∙◌, Bool, true, false, ◌&&◌, List, [], ◌∷◌, if◌then◌else◌,
  leb→le, ltb, leb, length, count_if, arith, Bool-cases, inl, inr, All,
}
use godeepwiki.RateLimit.Window.{
  Member, Log, is_member, trim, zadd, sliding_window, serve, serve_all, empty_log,
}

-- In the window of the given length that ends at time `t`.
abbrev pub in_window : ℕ → ℕ → Member → Bool
in_window window t m = leb m.score t && ltb t (m.score + window)

-- Later requests come at the same time or later, and no two are the same member.
abbrev pub IsSchedule : ℕ → List Member → List Member → Type 0
IsSchedule last seen [] = Unit {0}
IsSchedule last seen (r ∷ rs) =
    (last ≤ r.score) × (is_member r seen ≡ false) × IsSchedule r.score (r ∷ seen) rs

trim-trim :
    (window last now : ℕ) (xs : List Member)
    → last ≤ now
    → trim window now (trim window last xs) ≡ trim window now xs
unfolding trim
trim-trim window last now [] h = refl
trim-trim window last now (x ∷ xs) h = ground (arith, trim-trim window last now xs)

is_member-trim :
    (m : Member) (window now : ℕ) (xs : List Member)
    → is_member m xs ≡ false
    → is_member m (trim window now xs) ≡ false
unfolding trim is_member
is_member-trim m window now [] h = refl
is_member-trim m window now (x ∷ xs) h = ground (arith, is_member-trim m window now xs)

abbrev UpTo : ℕ → List Member → Type 0
UpTo now = All (λ m. m.score ≤ now)

UpTo-later : (last now : ℕ) (xs : List Member) → last ≤ now → UpTo last xs → UpTo now xs
UpTo-later last now [] h u = tt
UpTo-later last now (x ∷ xs) h u = (omega arith, UpTo-later last now xs h u.1)

length-trim :
    (window now : ℕ) (xs : List Member)
    → UpTo now xs
    → length (trim window now xs) ≡ count_if (in_window window now) xs
unfolding trim
length-trim window now [] u = refl
length-trim window now (x ∷ xs) u = ground (arith, length-trim window now xs)

-- What is in a later window and no later than `now` is in the window of `now` too.
count_later :
    (window now t : ℕ) (xs : List Member)
    → now ≤ t
    → UpTo now xs
    → count_if (in_window window t) xs ≤ count_if (in_window window now) xs
count_later window now t [] h u = omega arith
count_later window now t (x ∷ xs) h u = ground (arith, count_later window now t xs h u.1)

-- The set is what is left of the admitted requests at the time of the last request.
pub record IsAccurate (window limit last : ℕ) (log : Log) : Type 0 where
  pub held : log.set ≡ trim window last log.passed
  pub past : UpTo last log.passed
  pub bounded : (t : ℕ) → count_if (in_window window t) log.passed ≤ limit

-- A limiter that never forgets: it counts the admitted requests of the window that ends now.
abbrev pub admit_by_count : ℕ → ℕ → List Member → Member → List Member
admit_by_count window limit passed r =
    if ltb (count_if (in_window window r.score) passed) limit then r ∷ passed else passed

abbrev pub admit_all : ℕ → ℕ → List Member → List Member → List Member
admit_all window limit passed [] = passed
admit_all window limit passed (r ∷ rs) =
    admit_all window limit (admit_by_count window limit passed r) rs

module _ (window limit : ℕ) (wide : 0 < window) where
  serve-passed :
      (last : ℕ) (log : Log) (r : Member)
      → IsAccurate window limit last log
      → last ≤ r.score
      → (serve window limit log r).passed ≡ admit_by_count window limit log.passed r
  unfolding serve sliding_window
  serve-passed last log r ok later = rw ok.held (
      rw (trim-trim window last r.score log.passed later) (
        ground (
          arith,
          length-trim window r.score log.passed (UpTo-later last r.score log.passed later ok.past),
        )))

  serve-set :
      (last : ℕ) (log : Log) (r : Member)
      → IsAccurate window limit last log
      → last ≤ r.score
      → is_member r log.passed ≡ false
      → (serve window limit log r).set
        ≡ trim window r.score (admit_by_count window limit log.passed r)
  unfolding serve sliding_window zadd trim
  serve-set last log r ok later fresh = rw ok.held (
      rw (trim-trim window last r.score log.passed later) (
        ground (
          arith,
          length-trim window r.score log.passed (UpTo-later last r.score log.passed later ok.past),
          is_member-trim r window r.score log.passed fresh,
        )))

  admit_by_count-bounded :
      (last : ℕ) (passed : List Member) (r : Member) (t : ℕ)
      → UpTo last passed
      → last ≤ r.score
      → count_if (in_window window t) passed ≤ limit
      → count_if (in_window window t) (admit_by_count window limit passed r) ≤ limit
  admit_by_count-bounded last passed r t past later bounded = elim (Bool-cases (leb r.score t)) [
    | inl after ↦ ground (
      arith,
      count_later window r.score t passed (leb→le r.score t after)
          (UpTo-later last r.score passed later past),
    )
    | inr before ↦ ground arith
  ]

  serve-IsAccurate :
      (last : ℕ) (log : Log) (r : Member)
      → IsAccurate window limit last log
      → last ≤ r.score
      → is_member r log.passed ≡ false
      → IsAccurate window limit r.score (serve window limit log r)
  serve-IsAccurate last log r ok later fresh = record {
    held = rw (serve-passed last log r ok later) (serve-set last log r ok later fresh);
    past =
        rw (serve-passed last log r ok later)
          (elim (ltb (count_if (in_window window r.score) log.passed) limit)
            as (λ b. UpTo r.score (if b then r ∷ log.passed else log.passed)) [
              | true ↦ (omega arith, UpTo-later last r.score log.passed later ok.past)
              | false ↦ UpTo-later last r.score log.passed later ok.past
            ]);
    bounded = λ t.
        rw (serve-passed last log r ok later)
          (admit_by_count-bounded last log.passed r t ok.past later (ok.bounded t));
  }

  -- The requests seen so far hold all that were admitted.
  abbrev Among : List Member → List Member → Type 0
  Among passed seen = (m : Member) → is_member m seen ≡ false → is_member m passed ≡ false

  Among-step :
      (passed seen : List Member) (r : Member)
      → Among passed seen
      → Among (admit_by_count window limit passed r) (r ∷ seen)
  unfolding is_member
  Among-step passed seen r h m fresh = ground (arith, h m)

  serve_all_lem :
      (last : ℕ) (log : Log) (seen rs : List Member)
      → IsAccurate window limit last log
      → Among log.passed seen
      → IsSchedule last seen rs
      → ((serve_all window limit log rs).passed ≡ admit_all window limit log.passed rs)
        × ((t : ℕ) → count_if (in_window window t) (serve_all window limit log rs).passed ≤ limit)
  unfolding serve_all
  serve_all_lem last log seen [] ok among s = (refl, ok.bounded)
  serve_all_lem last log seen (r ∷ rs) ok among s =
      let same = serve-passed last log r ok s.0 in
      let rest =
        serve_all_lem r.score (serve window limit log r) (r ∷ seen) rs
          (serve-IsAccurate last log r ok s.0 (among r s.1))
          (rw same (Among-step log.passed seen r among)) s.2 in
      (rest.0 ∙ ap (λ p. admit_all window limit p rs) same, rest.1)

  empty-IsAccurate : IsAccurate window limit 0 empty_log
  unfolding trim
  empty-IsAccurate = record { held = refl; past = tt; bounded = λ t. omega arith }

  -- Requests come in order of time and no two have the same time and random number: then no
  -- window of the given length, wherever it ends, holds more admitted requests than the limit.
  pub serve_all-bounded :
      (rs : List Member) (t : ℕ)
      → IsSchedule 0 [] rs
      → count_if (in_window window t) (serve_all window limit empty_log rs).passed ≤ limit
  serve_all-bounded rs t s = (serve_all_lem 0 empty_log [] rs empty-IsAccurate (λ m h. h) s).1 t

  -- Requests come in order of time and no two have the same time and random number: then the
  -- script, which forgets what has left the window, admits the same requests as a limiter that keeps
  -- all of them and counts the window that ends with the request.
  pub serve_all-eq-admit_all :
      (rs : List Member)
      → IsSchedule 0 [] rs
      → (serve_all window limit empty_log rs).passed ≡ admit_all window limit [] rs
  serve_all-eq-admit_all rs s = (serve_all_lem 0 empty_log [] rs empty-IsAccurate (λ m h. h) s).0
