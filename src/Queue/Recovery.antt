-- ===== src/Queue/Recovery.antt =====
-- What the passes of reconciler.go publish.
use mathlib.Core.List.{Perm}
use mathlib.Core.List.Perm
use godeepwiki.Common.{
  ℕ, suc, ◌-◌, ◌≤◌, ◌≡◌, subst, refl, sym, ap, ◌∙◌, Bool, true, false, not, ◌&&◌, List, [], ◌∷◌,
  arith, Result, ok, map, ltb,
}
use godeepwiki.Model.Task.{Task, pending, same_state, is_terminal}
use godeepwiki.Store.Table.{Row, Table, update_where}
use godeepwiki.Store.Ops.{order_by, older_first, tasks_where, is_live}
use godeepwiki.Store.Listing.{order_by-perm}
use godeepwiki.Queue.Rabbit.{TaskMessage}
use godeepwiki.Queue.Reconciler.{PassFaults, message_of_task, republish, recover, recover_stale}

abbrev pub all_up : PassFaults
all_up = record { reset_ok = true; find_ok = true; publish_fails = λ i. false }

republish_all : (i : ℕ) (ts : List Task) → republish (λ i. false) i ts ≡ map message_of_task ts
unfolding republish
republish_all i [] = refl
republish_all i (t ∷ ts) = ap (◌∷◌ (message_of_task t)) (republish_all (suc i) ts)

-- A pending task that was not touched since `before`.
abbrev pub is_lost : ℕ → Row → Bool
is_lost before r = same_state r.task.state pending && ltb r.updated_at before

abbrev pub was_running : ℕ → Row → Bool
was_running before r =
    is_live r && (not (same_state r.task.state pending) && ltb r.updated_at before)

reset_row : ℕ → Row → Row
reset_row now r = record { task = record r.task { state = pending }; updated_at = now }

stale_after_reset :
    (now before : ℕ) (t : Table)
    → before ≤ now
    → tasks_where
        (λ r. is_live r && ltb r.updated_at before)
        (update_where (was_running before) (reset_row now) t)
      ≡ tasks_where (is_lost before) t
unfolding update_where reset_row is_terminal
stale_after_reset now before [] h = refl
stale_after_reset now before (r ∷ t) h = ground (arith, stale_after_reset now before t h)

ok-injective : {E : Type 0} {A : Type 0} {a b : A} → ◌≡◌ {A = Result E A} (ok a) (ok b) → a ≡ b
ok-injective h = cc

-- With database and queue up, the periodic pass publishes a message for each pending task that was
-- not touched for `stale_after`, the oldest first, and for no other: a running task that it puts
-- back to `pending` is touched by that, and gets no message in this pass.
pub recover_stale_lem :
    (now stale_after : ℕ) (table : Table)
    → (recover_stale all_up now stale_after table).0
      ≡ ok (
          map message_of_task
            (order_by older_first (tasks_where (is_lost (now - stale_after)) table)))
unfolding recover_stale reset_row
recover_stale_lem now stale_after table =
    rw (republish_all, stale_after_reset now (now - stale_after) table (omega arith))

live_after_reset :
    (now before : ℕ) (t : Table)
    → map message_of_task
        (tasks_where is_live (update_where (was_running before) (reset_row now) t))
      ≡ map message_of_task (tasks_where is_live t)
unfolding update_where reset_row is_terminal
live_after_reset now before [] = refl
live_after_reset now before (r ∷ t) = ground (arith, live_after_reset now before t)

-- With database and queue up, the pass at the start publishes exactly one message for each task that
-- is not terminal, and none for a terminal one.
pub recover_lem :
    (now stale_after : ℕ) (table : Table) (ms : List TaskMessage)
    → (recover all_up now stale_after table).0 ≡ ok ms
    → Perm ms (map message_of_task (tasks_where is_live table))
unfolding recover reset_row
recover_lem now stale_after table ms h =
    let after =
      tasks_where is_live (update_where (was_running (now - stale_after)) (reset_row now) table) in
    let q : ms ≡ map message_of_task (order_by older_first after) =
      ok-injective (sym h) ∙ republish_all 0 (order_by older_first after) in
    rw q (
      subst (Perm (map message_of_task (order_by older_first after)))
        (live_after_reset now (now - stale_after) table)
        (Perm.map message_of_task (order_by-perm older_first after)))
