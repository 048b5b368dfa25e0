-- ===== src/Manager/Pool/Counters.antt =====
-- The counters of the worker pool of task/pool.go say how many workers there are.
use godeepwiki.Common.{
  ℕ, zero, suc, ◌+◌, ◌-◌, ◌≤◌, ◌≡◌, refl, ap, Bool, true, false, List, [], ◌∷◌, ◌++◌, if◌then◌else◌,
  ltb, count_if, arith, Bool-cases, inl, inr,
}
use godeepwiki.Manager.Pool.{
  WorkerAt, loop_head, waiting, working, leaving, gone, PoolState, replicate, spawn, run, resize,
  Step, resizes, cancels, drains, stays, shrinks, stops, takes, ends, leaves, Steps, stop, next,
}

abbrev is_alive : WorkerAt → Bool
is_alive gone = false
is_alive loop_head = true
is_alive waiting = true
is_alive working = true
is_alive leaving = true

abbrev is_working : WorkerAt → Bool
is_working working = true
is_working loop_head = false
is_working waiting = false
is_working leaving = false
is_working gone = false

abbrev pub alive : List WorkerAt → ℕ
alive ws = count_if is_alive ws

abbrev at_work : List WorkerAt → ℕ
at_work ws = count_if is_working ws

-- `running` counts the workers that are not gone, and `busy` those at work.
abbrev pub IsCounted : PoolState → Type 0
IsCounted p = (p.running ≡ alive p.workers) × (p.busy ≡ at_work p.workers)

count_if-append :
    (f : WorkerAt → Bool) (xs ys : List WorkerAt)
    → count_if f (xs ++ ys) ≡ count_if f xs + count_if f ys
count_if-append f [] ys = omega arith
count_if-append f (x ∷ xs) ys = ground (arith, count_if-append f xs ys)

count_if-replicate :
    (n : ℕ) → (alive (replicate n loop_head) ≡ n) × (at_work (replicate n loop_head) ≡ 0)
count_if-replicate zero = (refl, refl)
count_if-replicate (suc n) = let (a, b) = count_if-replicate n in (ap suc a, b)

spawn-IsCounted : (n : ℕ) (p : PoolState) → IsCounted p → IsCounted (spawn n p)
unfolding spawn
spawn-IsCounted n p (a, b) =
    let (c, d) = count_if-replicate n in
    (
      omega (arith, count_if-append is_alive p.workers (replicate n loop_head)),
      omega (arith, count_if-append is_working p.workers (replicate n loop_head)),
    )

-- One worker moves from `a` to `b`: what the counts were, and what they are now.
move_lem :
    (f : WorkerAt → Bool) (ws xs ys : List WorkerAt) (a b : WorkerAt)
    → ws ≡ xs ++ a ∷ ys
    → count_if f ws + (if f b then 1 else 0) ≡ count_if f (xs ++ b ∷ ys) + (if f a then 1 else 0)
move_lem f ws xs ys a b e =
    rw (e, count_if-append f xs (a ∷ ys), count_if-append f xs (b ∷ ys)) (ground arith)

Step-IsCounted : (p q : PoolState) → Step p q → IsCounted p → IsCounted q
unfolding resize
Step-IsCounted _ _ (resizes n p) h =
    let target = if ltb n 1 then 1 else n in
    elim (Bool-cases p.ctx_done) [
      | inl done ↦ rw done h
      | inr live ↦ rw live (spawn-IsCounted (target - p.size) (record p { size = target }) h)
    ]
Step-IsCounted _ _ (cancels p) h = h
Step-IsCounted _ _ (drains p) h = h
Step-IsCounted _ _ (stays p xs ys e l) (a, b) = (
  omega (arith, move_lem is_alive p.workers xs ys loop_head waiting e),
  omega (arith, move_lem is_working p.workers xs ys loop_head waiting e),
)
Step-IsCounted _ _ (shrinks p xs ys e l) (a, b) = (
  omega (arith, move_lem is_alive p.workers xs ys loop_head leaving e),
  omega (arith, move_lem is_working p.workers xs ys loop_head leaving e),
)
Step-IsCounted _ _ (stops p xs ys e shut) (a, b) = (
  omega (arith, move_lem is_alive p.workers xs ys waiting leaving e),
  omega (arith, move_lem is_working p.workers xs ys waiting leaving e),
)
Step-IsCounted _ _ (takes p xs ys e) (a, b) = (
  omega (arith, move_lem is_alive p.workers xs ys waiting working e),
  omega (arith, move_lem is_working p.workers xs ys waiting working e),
)
Step-IsCounted _ _ (ends p xs ys e) (a, b) = (
  omega (arith, move_lem is_alive p.workers xs ys working loop_head e),
  omega (arith, move_lem is_working p.workers xs ys working loop_head e),
)
Step-IsCounted _ _ (leaves p xs ys e) (a, b) = (
  omega (arith, move_lem is_alive p.workers xs ys leaving gone e),
  omega (arith, move_lem is_working p.workers xs ys leaving gone e),
)

Steps-IsCounted : (p q : PoolState) → Steps p q → IsCounted p → IsCounted q
Steps-IsCounted _ _ (stop p) h = h
Steps-IsCounted p r (next {q = q} s ss) h = Steps-IsCounted q r ss (Step-IsCounted p q s h)

work_within : (ws : List WorkerAt) → at_work ws ≤ alive ws
work_within [] = omega arith
work_within (loop_head ∷ ws) = omega (arith, work_within ws)
work_within (waiting ∷ ws) = omega (arith, work_within ws)
work_within (working ∷ ws) = omega (arith, work_within ws)
work_within (leaving ∷ ws) = omega (arith, work_within ws)
work_within (gone ∷ ws) = omega (arith, work_within ws)

-- In every state that a pool reaches from Run, by any steps of its workers, any
-- calls of Resize and any shutdown,
-- `running` is the number of workers that are not gone, `busy` the number of those at work, and so
-- `busy` is at most `running`.
pub run-IsCounted :
    (size : ℕ) (p : PoolState) → Steps (run size) p → IsCounted p × (p.busy ≤ p.running)
unfolding run
run-IsCounted size p ss =
    let empty : PoolState = record {
      size = size;
      running = 0;
      busy = 0;
      workers = [];
      ctx_done = false;
      drained = false;
    } in
    let h : IsCounted p =
      Steps-IsCounted (run size) p ss (spawn-IsCounted size empty (refl, refl)) in
    (h, omega (arith, work_within p.workers, h.0, h.1))
