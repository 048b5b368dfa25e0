-- ===== src/Queue/Consumer/Retrying.antt =====
-- When the supervising loop ends the process (deepwiki/internal/queue/consumer.go).
use godeepwiki.Common.{
  ℕ, zero, suc, ◌+◌, ◌≡◌, refl, ap, subst, sym, Bool, true, false, List, [], ◌∷◌, ◌++◌, Bool-cases,
  inl, inr, ◌⊎◌, ltb, All, arith, Result, ok, err,
}
use godeepwiki.Model.Errors.{Error}
use godeepwiki.Queue.Rabbit.{Conn}
use godeepwiki.Queue.Consumer.{
  Round, Flow, Pumped, exits, lost, pumping, Supervised, fatal, reconnect_max_tries, start_consume,
  pump, after_pump, round, supervise,
}

-- The first rounds, as many as the number says, do not get to consume.
abbrev pub Streak : ℕ → List Round → Conn → Type 0
Streak zero rs c = Unit {0}
Streak (suc n) [] c = ⊥
Streak (suc n) (r ∷ rs) c =
    ((e : Error) × ((start_consume r c).0 ≡ err e)) × Streak n rs (start_consume r c).1

-- Eleven rounds in a row that do not get to consume, somewhere later.
abbrev pub HasStreak : List Round → Type 0
HasStreak rs =
    (before : List Round) × (after : List Round) × (c : Conn) × (rs ≡ before ++ after)
    × Streak 11 after c

HasStreak-later : (r : Round) (rs : List Round) → HasStreak rs → HasStreak (r ∷ rs)
HasStreak-later r rs (before, after, c, is, streak) =
    (r ∷ before, after, c, ap (λ l. r ∷ l) is, streak)

now-HasStreak : (rs : List Round) (c : Conn) → Streak 11 rs c ⊎ HasStreak rs → HasStreak rs
now-HasStreak rs c (inl streak) = ([], rs, c, refl, streak)
now-HasStreak rs c (inr later) = later

after_pump-HasStreak :
    (slept : Bool) (afresh : Flow → Supervised × Flow) (rs : List Round) (pumped : Pumped × Flow)
    → ((g : Flow) → (afresh g).0 ≡ fatal → HasStreak rs)
    → (after_pump slept afresh pumped).0 ≡ fatal
    → HasStreak rs
after_pump-HasStreak slept afresh rs (exits, f) later h = absurd (cc)
after_pump-HasStreak slept afresh rs (pumping, f) later h = absurd (cc)
after_pump-HasStreak true afresh rs (lost, f) later h = later f h
after_pump-HasStreak false afresh rs (lost, f) later h = absurd (cc)

err-HasStreak :
    (k retries : ℕ) (r : Round) (rs : List Round) (again afresh : Flow → Supervised × Flow)
    (f : Flow) (e : Error) (c : Conn)
    → retries + suc k ≡ 11
    → start_consume r f.conn ≡ (err e, c)
    → ((j : ℕ)
        → suc retries + suc j ≡ 11
        → (g : Flow) → g.conn ≡ c
        → (again g).0 ≡ fatal
        → Streak (suc j) rs c ⊎ HasStreak rs)
    → (round retries r again afresh f (err e, c)).0 ≡ fatal
    → Streak (suc k) (r ∷ rs) f.conn ⊎ HasStreak (r ∷ rs)
err-HasStreak zero retries r rs again afresh f e c total got later h =
    inl ((e, ap (λ p. p.0) got), tt)
err-HasStreak (suc k) retries r rs again afresh f e c total got later h =
    let few : ltb reconnect_max_tries (suc retries) ≡ false = ground (arith, total) in
    elim (Bool-cases r.slept) [
      | inr woken ↦ absurd (ground (arith, few, woken, h))
      | inl slept ↦
          elim (later k (omega (arith, total)) (record f { conn = c }) refl
            (ground (arith, few, slept, h))) [
              | inr found ↦ inr (HasStreak-later r rs found)
              | inl streak ↦ inl (
                (e, ap (λ p. p.0) got),
                subst (λ d. Streak (suc k) rs d) (sym (ap (λ p. p.1) got)) streak,
              )
            ]
    ]

round-HasStreak :
    (k retries : ℕ) (r : Round) (rs : List Round) (again afresh : Flow → Supervised × Flow)
    (f : Flow) (reply : Result Error (Unit {0}) × Conn)
    → retries + suc k ≡ 11
    → start_consume r f.conn ≡ reply
    → ((j : ℕ)
        → suc retries + suc j ≡ 11
        → (g : Flow) → g.conn ≡ reply.1
        → (again g).0 ≡ fatal
        → Streak (suc j) rs reply.1 ⊎ HasStreak rs)
    → ((g : Flow) → (afresh g).0 ≡ fatal → HasStreak rs)
    → (round retries r again afresh f reply).0 ≡ fatal
    → Streak (suc k) (r ∷ rs) f.conn ⊎ HasStreak (r ∷ rs)
round-HasStreak k retries r rs again afresh f (err e, c) total got later anew h =
    err-HasStreak k retries r rs again afresh f e c total got later h
round-HasStreak k retries r rs again afresh f (ok _, c) total got later anew h = inr (
    HasStreak-later r rs (
      after_pump-HasStreak r.slept afresh rs (pump r.started r.events (record f { conn = c })) anew
        h))

supervise-HasStreak :
    (k retries : ℕ) (rs : List Round) (f : Flow)
    → retries + suc k ≡ 11
    → (supervise retries rs f).0 ≡ fatal
    → Streak (suc k) rs f.conn ⊎ HasStreak rs
unfolding supervise
supervise-HasStreak k retries [] f total h = absurd (cc)
supervise-HasStreak k retries (r ∷ rs) f total h =
    round-HasStreak k retries r rs (supervise (suc retries) rs) (supervise 0 rs) f
      (start_consume r f.conn) total refl
      (λ j total' g at h'.
        subst (λ c. Streak (suc j) rs c ⊎ HasStreak rs) at
          (supervise-HasStreak j (suc retries) rs g total' h'))
      (λ g h'. now-HasStreak rs g.conn (supervise-HasStreak 10 0 rs g refl h')) h

round-fatal :
    (k retries : ℕ) (r : Round) (again afresh : Flow → Supervised × Flow) (f : Flow)
    (reply : Result Error (Unit {0}) × Conn) (e : Error)
    → retries + suc k ≡ 11
    → r.slept ≡ true
    → reply.0 ≡ err e
    → ((j : ℕ) → k ≡ suc j → (again (record f { conn = reply.1 })).0 ≡ fatal)
    → (round retries r again afresh f reply).0 ≡ fatal
round-fatal k retries r again afresh f (ok _, c) e total slept refused later = absurd (cc)
round-fatal zero retries r again afresh f (err x, c) e total slept refused later =
    ground (arith, total)
round-fatal (suc k) retries r again afresh f (err x, c) e total slept refused later =
    let few : ltb reconnect_max_tries (suc retries) ≡ false = ground (arith, total) in
    ground (arith, few, slept, later k refl)

Streak-fatal :
    (k retries : ℕ) (rs : List Round) (f : Flow)
    → retries + suc k ≡ 11
    → All (λ r. r.slept ≡ true) rs
    → Streak (suc k) rs f.conn
    → (supervise retries rs f).0 ≡ fatal
unfolding supervise
Streak-fatal k retries [] f total slept streak = absurd streak
Streak-fatal k retries (r ∷ rs) f total slept streak =
    let c = (start_consume r f.conn).1 in
    round-fatal k retries r (supervise (suc retries) rs) (supervise 0 rs) f (start_consume r f.conn)
      streak.0.0 total slept.0 streak.0.1
      (λ j is.
        Streak-fatal j (suc retries) rs (record f { conn = c }) (omega (arith, total, is)) slept.1
          (subst (λ n. Streak n rs c) is streak.1))

-- The loop ends the process only after eleven rounds in a row that did not get to consume, whatever
-- came before; and it does so when the first eleven rounds do not and no pause is cut short.
pub supervise-fatal :
    (rs : List Round) (f : Flow)
    → ((supervise 0 rs f).0 ≡ fatal → HasStreak rs)
      × (All (λ r. r.slept ≡ true) rs → Streak 11 rs f.conn → (supervise 0 rs f).0 ≡ fatal)
supervise-fatal rs f = (
  (λ h. now-HasStreak rs f.conn (supervise-HasStreak 10 0 rs f refl h)),
  (λ slept streak. Streak-fatal 10 0 rs f refl slept streak),
)
