-- ===== src/Manager/Pool.antt =====
-- The worker pool (deepwiki/internal/task/pool.go): one message, and the pool's counters under Run,
-- Resize and the workers' loops.
pub mod Counters
pub mod Shrink
use godeepwiki.Common.{
  ℕ, zero, suc, ◌+◌, ◌-◌, ◌≡◌, Bool, true, false, List, [], ◌∷◌, ◌++◌, Option, if◌then◌else◌, ltb,
  ◌||◌,
}
use godeepwiki.Model.Task.{TaskType}
use godeepwiki.Manager.State.{World, Config, nacks, settle_with}
use godeepwiki.Manager.Dispatch.{DispatchEnv, Executor, Delivery, dispatch}

-- One message: a panic of the handler is recovered, and the message rejected without requeue.
unfoldable pub handle_one :
    Config → DispatchEnv → (TaskType → Option Executor) → Delivery → World → World
unfolding dispatch settle_with
handle_one cfg env executors d w =
    let (w', panicked) = dispatch cfg env executors d w in
    if panicked then settle_with d.tag (nacks false) w' else w'

-- Where a worker is: at the head of its loop, waiting for a message or for the end, at work, on its
-- way out with its deferred calls still to run, or gone.
pub data WorkerAt : Type 0 where
  loop_head waiting working leaving gone : WorkerAt

-- The three atomic counters, the workers in the order in which they were started, whether the
-- context of Run is done, and whether the channel of the deliveries is closed.
pub record PoolState : Type 0 where
  pub size : ℕ
  pub running : ℕ
  pub busy : ℕ
  pub workers : List WorkerAt
  pub ctx_done : Bool
  pub drained : Bool

abbrev pub replicate : ℕ → WorkerAt → List WorkerAt
replicate zero a = []
replicate (suc n) a = a ∷ replicate n a

-- New workers, each counted before it starts.
unfoldable pub spawn : ℕ → PoolState → PoolState
spawn n p = record p { running = p.running + n; workers = p.workers ++ replicate n loop_head }

-- newWorkerPool(size), and Run on a context that is alive and a channel that is open.
unfoldable pub run : ℕ → PoolState
unfolding spawn
run size =
    spawn size (record {
      size = size;
      running = 0;
      busy = 0;
      workers = [];
      ctx_done = false;
      drained = false;
    })

-- Resize on a running pool: at least one; only a growth starts workers, and none after the end of
-- the context.
unfoldable pub resize : ℕ → PoolState → PoolState
unfolding spawn
resize n p =
    let target = if ltb n 1 then 1 else n in
    if p.ctx_done
    then record p { size = target }
    else spawn (target - p.size) (record p { size = target })

-- One atomic step of one worker of the pool, a Resize, or one of the two ways to shut the pool. A
-- worker reads the two counters at the head of its loop; the deferred decrement of `running` is a
-- later step. A waiting worker stops only when the pool is shut; until it does, it may still take a
-- message that is there.
pub data Step : PoolState → PoolState → Type 0 where
  resizes : (n : ℕ) (p : PoolState) → Step p (resize n p)
  cancels : (p : PoolState) → Step p (record p { ctx_done = true })
  drains : (p : PoolState) → Step p (record p { drained = true })
  stays :
      (p : PoolState) (xs ys : List WorkerAt)
      → p.workers ≡ xs ++ loop_head ∷ ys
      → ltb p.size p.running ≡ false
      → Step p (record p { workers = xs ++ waiting ∷ ys })
  shrinks :
      (p : PoolState) (xs ys : List WorkerAt)
      → p.workers ≡ xs ++ loop_head ∷ ys
      → ltb p.size p.running ≡ true
      → Step p (record p { workers = xs ++ leaving ∷ ys })
  stops :
      (p : PoolState) (xs ys : List WorkerAt)
      → p.workers ≡ xs ++ waiting ∷ ys
      → p.ctx_done || p.drained ≡ true
      → Step p (record p { workers = xs ++ leaving ∷ ys })
  takes :
      (p : PoolState) (xs ys : List WorkerAt)
      → p.workers ≡ xs ++ waiting ∷ ys
      → Step p (record p { busy = p.busy + 1; workers = xs ++ working ∷ ys })
  ends :
      (p : PoolState) (xs ys : List WorkerAt)
      → p.workers ≡ xs ++ working ∷ ys
      → Step p (record p { busy = p.busy - 1; workers = xs ++ loop_head ∷ ys })
  leaves :
      (p : PoolState) (xs ys : List WorkerAt)
      → p.workers ≡ xs ++ leaving ∷ ys
      → Step p (record p { running = p.running - 1; workers = xs ++ gone ∷ ys })

-- Any number of steps.
pub data Steps : PoolState → PoolState → Type 0 where
  stop : (p : PoolState) → Steps p p
  next : {p q r : PoolState} → Step p q → Steps q r → Steps p r
