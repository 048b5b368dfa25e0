-- ===== src/Manager/Pool/Shrink.antt =====
-- A Resize of task/pool.go to fewer workers: each worker compares the counters by itself.
use godeepwiki.Common.{
  ℕ, zero, suc, ◌-◌, ◌≤◌, ◌<◌, ◌≡◌, refl, sym, ap, ◌∙◌, subst, true, false, List, [], ◌∷◌, ◌++◌,
  if◌then◌else◌, ltb, arith,
}
use godeepwiki.Manager.Pool.{
  WorkerAt, loop_head, leaving, gone, PoolState, replicate, spawn, run, resize, shrinks, leaves,
  Steps, stop, next,
}
use godeepwiki.Manager.Pool.Counters.{alive}

append_one : (xs ys : List WorkerAt) (a : WorkerAt) → (xs ++ a ∷ []) ++ ys ≡ xs ++ a ∷ ys
append_one [] ys a = refl
append_one (x ∷ xs) ys a = ap (λ l. x ∷ l) (append_one xs ys a)

append_nil : (xs : List WorkerAt) → xs ++ [] ≡ xs
append_nil [] = refl
append_nil (x ∷ xs) = ap (λ l. x ∷ l) (append_nil xs)

trans-Steps : (p q r : PoolState) → Steps p q → Steps q r → Steps p r
trans-Steps _ _ r (stop p) t = t
trans-Steps p q r (next {q = o} s ss) t = next s (trans-Steps o q r ss t)

-- While the pool is over its size, every worker at its loop's head may turn to leave.
all_turn :
    (p : PoolState) (xs : List WorkerAt) (n : ℕ)
    → p.workers ≡ xs ++ replicate n loop_head
    → ltb p.size p.running ≡ true
    → Steps p (record p { workers = xs ++ replicate n leaving })
all_turn p xs zero e over = subst (λ l. Steps p (record p { workers = l })) e (stop p)
all_turn p xs (suc n) e over =
    let q : PoolState = record p { workers = xs ++ leaving ∷ replicate n loop_head } in
    next (shrinks p xs (replicate n loop_head) e over) (
      subst (λ l. Steps q (record p { workers = l })) (append_one xs (replicate n leaving) leaving)
        (all_turn q (xs ++ leaving ∷ []) n (sym (append_one xs (replicate n loop_head) leaving))
          over))

all_leave :
    (p : PoolState) (xs : List WorkerAt) (n : ℕ)
    → p.workers ≡ xs ++ replicate n leaving
    → Steps p (record p { running = p.running - n; workers = xs ++ replicate n gone })
all_leave p xs zero e =
    subst (λ r. Steps p (record p { running = r; workers = xs ++ [] })) (omega arith)
      (subst (λ l. Steps p (record p { workers = l })) e (stop p))
all_leave p xs (suc n) e =
    let q : PoolState = record p {
      running = p.running - 1;
      workers = xs ++ gone ∷ replicate n leaving;
    } in
    next (leaves p xs (replicate n leaving) e) (
      subst (λ r. Steps q (record p { running = r; workers = xs ++ gone ∷ replicate n gone }))
        (omega arith)
        (subst (λ l. Steps q (record p { running = p.running - 1 - n; workers = l }))
          (append_one xs (replicate n gone) gone)
          (all_leave q (xs ++ gone ∷ []) n (sym (append_one xs (replicate n leaving) gone)))))

alive_gone : (n : ℕ) → alive (replicate n gone) ≡ 0
alive_gone zero = refl
alive_gone (suc n) = alive_gone n

-- The workers' comparison and the decrement of `running` are two steps, so a shrink may stop the
-- pool: from a pool of `old` idle workers and any smaller size from one on, without a shutdown, a
-- state is reached in which the size is `size` and no worker is left, and a further Resize to `size`
-- starts none.
pub shrink_stops :
    (old size : ℕ)
    → 1 ≤ size
    → size < old
    → (p : PoolState) × Steps (resize size (run old)) p
      × (p.ctx_done ≡ false)
      × (p.drained ≡ false)
      × (p.size ≡ size)
      × (p.running ≡ 0)
      × (alive p.workers ≡ 0)
      × (alive (resize size p).workers ≡ 0)
unfolding run resize spawn
shrink_stops old size least fewer =
    let start = resize size (run old) in
    let turned : PoolState = record start { workers = replicate old leaving } in
    let over : ltb start.size start.running ≡ true = ground arith in
    let none_new : (if ltb size 1 then 1 else size) - old ≡ 0 = ground arith in
    let again : (if ltb size 1 then 1 else size) - start.size ≡ 0 = omega arith in
    let idle : start.workers ≡ replicate old loop_head =
      ap (λ n. replicate old loop_head ++ replicate n loop_head) none_new
      ∙ append_nil (replicate old loop_head) in
    (
      record turned { running = start.running - old; workers = replicate old gone },
      trans-Steps start turned _ (all_turn start [] old idle over) (all_leave turned [] old refl),
      refl,
      refl,
      ground arith,
      ground arith,
      alive_gone old,
      rw again (rw (append_nil (replicate old gone)) (alive_gone old)),
    )
