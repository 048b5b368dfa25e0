-- ===== src/Tests/Manager.antt =====
-- The theorems on the manager at concrete inputs.
use mathlib.Core.Option
use godeepwiki.Common.{
  ◌+◌, ◌≡◌, ◌≤◌, refl, inl, true, false, [], ◌∷◌, none, some, arith, ok, err, if◌then◌else◌, ltb,
}
use godeepwiki.Common.Dict.{lookup}
use godeepwiki.Model.Task.{failed, cancelled, cloning, parsing, is_terminal, at_state}
use godeepwiki.Model.Errors.{wrapped, invalid_task_state}
use godeepwiki.Store.Table.{find_row}
use godeepwiki.Lock.{holder, refresh_lock_ttl}
use godeepwiki.Queue.Publisher.{publish_to_dlq}
use godeepwiki.Manager.State.{acks, settle_with, first_state_of}
use godeepwiki.Manager.Dispatch.{reset_and_retry, exhausted_error, retry_count}
use godeepwiki.Manager.Dispatch.Settles.{SettledOnce, handle_one-SettledOnce}
use godeepwiki.Manager.Dispatch.Duplicates.{handle_one_duplicate}
use godeepwiki.Manager.Dispatch.Retries.{dead_message, outcome_of, reset_and_retry_over}
use godeepwiki.Manager.Submit.{submit, cancel, take_refresh_lock}
use godeepwiki.Manager.Submit.Locking.{Free, submit-Free, submit_leaks}
use godeepwiki.Manager.Submit.Cancelling.{mark_of, cancel_lem}
use godeepwiki.Manager.Pool.{handle_one, PoolState, Steps, next, stop, run, resize, resizes}
use godeepwiki.Manager.Pool.Counters.{IsCounted, alive, run-IsCounted}
use godeepwiki.Manager.Pool.Shrink.{shrink_stops}
use godeepwiki.Tests.Data.{
  row_of, parsing_task, refresh_task, quiet_world, small_config, all_well, message_a, message_b,
  delivery_of, panicking, submit_env, cancel_env, good_wire, fresh_publisher,
}

handle_one-SettledOnce_example :
    SettledOnce 7 quiet_world
      (handle_one small_config all_well panicking (delivery_of message_a 0) quiet_world)
handle_one-SettledOnce_example =
    handle_one-SettledOnce small_config all_well panicking (delivery_of message_a 0) quiet_world

handle_one_duplicate_example :
    handle_one small_config all_well panicking (delivery_of message_b 0) quiet_world
    ≡ settle_with 7 acks quiet_world
unfolding find_row first_state_of
handle_one_duplicate_example =
    handle_one_duplicate small_config all_well panicking (delivery_of message_b 0) message_b cloning
      quiet_world refl refl refl refl (refl, (refl, (refl, tt))) refl

reset_and_retry_over_example :
    let w = reset_and_retry small_config all_well (delivery_of message_b 3) message_b quiet_world in
    (outcome_of "task_b" w.table ≡ some (failed, some (exhausted_error (at_state failed))))
    × (w.settled ≡ (7, acks) ∷ [])
    × (true ≡ true → lookup "task_b" w.refresh_locks ≡ none)
    × ((publish_to_dlq good_wire message_b fresh_publisher).0 ≡ ok tt
        → w.publisher.sent ≡ dead_message message_b ∷ [])
unfolding find_row retry_count is_terminal
reset_and_retry_over_example =
    reset_and_retry_over small_config all_well (delivery_of message_b 3) message_b
      (row_of parsing_task) quiet_world refl refl refl refl

submit-Free_example :
    Free refresh_task (submit small_config (submit_env 4 true) refresh_task quiet_world).1
unfolding submit
submit-Free_example =
    submit-Free small_config (submit_env 4 true) refresh_task quiet_world refl refl refl (inl refl)

submit_leaks_example :
    let (res, w) = submit small_config (submit_env 0 false) refresh_task quiet_world in
    (res ≡ err (wrapped "insert task"))
    × (holder 250 "repo_1" w.locks
        ≡ (if ltb 250 (100 + refresh_lock_ttl) then some "secret" else none))
unfolding take_refresh_lock
submit_leaks_example =
    submit_leaks small_config (submit_env 0 false) refresh_task 250 quiet_world refl refl refl refl

cancel_lem_example :
    (is_terminal parsing ≡ true
      → cancel cancel_env "task_b" quiet_world ≡ (err invalid_task_state, quiet_world))
    × (is_terminal parsing ≡ false
        → let (res, w) = cancel cancel_env "task_b" quiet_world in
          (res ≡ ok tt)
          × (mark_of "task_b" w.table ≡ some (cancelled, true))
          × (lookup "task_b" w.cancels
              ≡ Option.map (λ c. true) (lookup "task_b" quiet_world.cancels)))
unfolding find_row
cancel_lem_example =
    cancel_lem cancel_env "task_b" (row_of parsing_task) quiet_world (refl, refl, refl, refl) refl

run-IsCounted_example : let p = resize 3 (run 1) in IsCounted p × (p.busy ≤ p.running)
run-IsCounted_example =
    run-IsCounted 1 (resize 3 (run 1)) (next (resizes 3 (run 1)) (stop (resize 3 (run 1))))

shrink_stops_example :
    (p : PoolState) × Steps (resize 1 (run 2)) p
    × (p.ctx_done ≡ false)
    × (p.drained ≡ false)
    × (p.size ≡ 1)
    × (p.running ≡ 0)
    × (alive p.workers ≡ 0)
    × (alive (resize 1 p).workers ≡ 0)
shrink_stops_example = shrink_stops 2 1 (omega arith) (omega arith)
