-- ===== src/Manager/Dispatch/Retries.antt =====
-- What becomes of a task whose executor fails: another attempt, or the end (task/manager.go).
use mathlib.Core.Option
use godeepwiki.Common.Dict.{lookup, lookup-delete}
use godeepwiki.Common.{
  ℕ, ◌+◌, ◌≡◌, refl, ap, ◌∙◌, inl, inr, true, false, ◌&&◌, ltb, [], ◌∷◌, ◌++◌, Option, none, some,
  String, arith, eq_refl, Option-cases, Bool-cases, ok, get_elem?,
}
use godeepwiki.Model.Task.{TaskError, TaskState, failed, at_state}
use godeepwiki.Store.Table.{Row, Table, find_row, update_where, has_id, find_row-update_where}
use godeepwiki.Store.Keys.{has_id-find_row}
use godeepwiki.Store.Ops.{fail_task, is_live}
use godeepwiki.Queue.Rabbit.{TaskMessage, exchange_dlx, queue_dlq, retry_queues}
use godeepwiki.Queue.Publisher.{Wire, Sent, Publisher, publish_to, publish_to_dlq}
use godeepwiki.Manager.State.{World, Config, acks, release_refresh_lock}
use godeepwiki.Manager.Dispatch.{
  DispatchEnv, Delivery, retry_count, reset_and_retry, give_up, exhausted_error, release_by_id,
  with_table,
}

abbrev pub dead_message : TaskMessage → Sent
dead_message m = record {
  exchange = exchange_dlx;
  key = queue_dlq;
  message = m;
  retry_count = none;
}

-- How a task ended, if it is there.
abbrev pub outcome_of : String → Table → Option (TaskState × Option TaskError)
outcome_of id t = Option.map (λ x. (x.task.state, x.task.error)) (find_row id t)

-- The message of the next attempt: to the retry queue of this attempt, with the count one higher.
abbrev pub retry_message : TaskMessage → ℕ → Sent
retry_message m n = elim (get_elem? retry_queues n) [
  | none ↦ dead_message m
  | some rq ↦ record {
    exchange = exchange_dlx;
    key = rq.name;
    message = m;
    retry_count = some (n + 1);
  }
]

publish_to-sent :
    (w : Wire) (exchange key : String) (m : TaskMessage) (c : Option ℕ) (p : Publisher)
    → (publish_to w exchange key m c p).0 ≡ ok tt
    → (publish_to w exchange key m c p).1.sent
      ≡ p.sent ++ (record { exchange = exchange; key = key; message = m; retry_count = c }) ∷ []
unfolding publish_to
publish_to-sent w exchange key m c p h = ground arith

-- An UPDATE of the live row of a key succeeds and leaves the new row there.
module _ (f : Row → Row) (keeps : (x : Row) → (f x).task.task_id ≡ x.task.task_id) where
  update_live :
      (id : String) (t : Table) (r : Row)
      → find_row id t ≡ some r
      → is_live r ≡ true
      → find_row id (update_where (λ x. has_id id x && is_live x) f t) ≡ some (f r)
  update_live id t r e l =
      rw
        (
          find_row-update_where id (λ x. has_id id x && is_live x) f t keeps,
          e,
          has_id-find_row id t r e,
          l,
        )
        refl

fail_task-live :
    (now : ℕ) (id : String) (e : TaskError) (t : Table) (r : Row)
    → find_row id t ≡ some r
    → is_live r ≡ true
    → outcome_of id (fail_task true now id e t).1 ≡ some (failed, some e)
unfolding fail_task
fail_task-live now id e t r found l = ap (Option.map (λ x. (x.task.state, x.task.error))) (
    update_live
      (λ x. record {
        task = record x.task { state = failed; error = some e; finished_at = some now };
        updated_at = now;
      })
      (λ x. refl) id t r found l)

release_by_id-lem :
    (cfg : Config) (env : DispatchEnv) (id : String) (w : World)
    → let w' = release_by_id cfg env id w in
      (w'.table ≡ w.table)
      × (w'.publisher ≡ w.publisher)
      × (w'.settled ≡ w.settled)
      × (cfg.has_locker ≡ true → lookup id w'.refresh_locks ≡ none)
unfolding release_by_id release_refresh_lock
release_by_id-lem cfg env id w = elim (Bool-cases cfg.has_locker) [
  | inr off ↦ rw (off, release_by_id) (refl, refl, refl, λ h. absurd (ground arith))
  | inl on ↦ elim (Option-cases (lookup id w.refresh_locks)) [
    | inl e ↦ rw (on, release_by_id) (rw (e, release_refresh_lock) (refl, refl, refl, λ h. e))
    | inr (token, e) ↦
        rw (on, release_by_id)
          (rw (e, release_refresh_lock)
            (
              refl,
              refl,
              refl,
              λ h. ground (arith, lookup-delete id id w.refresh_locks, eq_refl id),
            ))
  ]
]

-- A run that failed with no attempts left, of a task that is in the table and has not ended, while
-- the table answers: the task is failed with the code of exhausted retries, the delivery is
-- acknowledged, the manager holds no lock of this task any more, and if the broker answers, the
-- message is in the dead-letter queue.
pub reset_and_retry_over :
    (cfg : Config) (env : DispatchEnv) (d : Delivery) (m : TaskMessage) (r : Row) (w : World)
    → ltb (retry_count d.retries) cfg.max_retries ≡ false
    → find_row m.task_id w.table ≡ some r
    → is_live r ≡ true
    → env.fail_ok ≡ true
    → let w' = reset_and_retry cfg env d m w in
      (outcome_of m.task_id w'.table ≡ some (failed, some (exhausted_error (at_state failed))))
      × (w'.settled ≡ w.settled ++ (d.tag, acks) ∷ [])
      × (cfg.has_locker ≡ true → lookup m.task_id w'.refresh_locks ≡ none)
      × ((publish_to_dlq env.dlq_wire m w.publisher).0 ≡ ok tt
          → w'.publisher.sent ≡ w.publisher.sent ++ dead_message m ∷ [])
unfolding reset_and_retry give_up publish_to_dlq
reset_and_retry_over cfg env d m r w over found l up =
    let w₁ =
      with_table w
        (fail_task env.fail_ok env.now m.task_id (exhausted_error (at_state failed)) w.table).1 in
    let (table, publisher, settled, free) = release_by_id-lem cfg env m.task_id w₁ in
    rw (over, reset_and_retry)
      (
        ap (outcome_of m.task_id) table
            ∙ rw up (fail_task-live env.now m.task_id _ w.table r found l),
        ap (λ l. l ++ (d.tag, acks) ∷ []) settled,
        free,
        λ h.
            ap (λ p. (publish_to_dlq env.dlq_wire m p).1.sent) publisher
            ∙ publish_to-sent env.dlq_wire exchange_dlx queue_dlq m none w.publisher h,
      )
