-- ===== src/Tests/Queue.antt =====
-- The theorems on the queue at concrete inputs.

use godeepwiki.Queue.Consumer.{Flow, PumpEvent, tick, delivery, Round, fatal, pump, supervise}
use godeepwiki.Queue.Consumer.Pumping.{IsHandedOn, pump-IsHandedOn}
use godeepwiki.Queue.Consumer.Retrying.{Streak, HasStreak, supervise-fatal}
use godeepwiki.Common.{All, List, none}
use godeepwiki.Common.{◌-◌, ◌≡◌, true, false, [], ◌∷◌, ok, map}
use godeepwiki.Store.Ops.{order_by, older_first, tasks_where}
use godeepwiki.Queue.Rabbit.{RetryQueue, queue_retry_30s}
use godeepwiki.Queue.Routing.{DirectRouting, Bound}
use godeepwiki.Queue.Publisher.{Wire}
use godeepwiki.Queue.Confirms.{Attempt}
use godeepwiki.Queue.Reconciler.{recover_stale, message_of_task}
use godeepwiki.Queue.Recovery.{all_up, is_lost, recover_stale_lem}
use godeepwiki.Tests.Data.{three_rows, good_wire, message_a}

-- A broker that does just what the bindings say.
abbrev plain_broker : DirectRouting
plain_broker = record { Routes = Bound; by_binding = λ bs e k q. (λ h. h, λ h. h) }

abbrev half_minute : RetryQueue
half_minute = record { name = queue_retry_30s; ttl = 30000 }

abbrev late_wire : Wire
late_wire = record good_wire { confirm = none }

-- The broker returns the message, and acknowledges it.
abbrev unroutable_wire : Wire
unroutable_wire = record good_wire { returned = true; confirm_taken = false }

abbrev three_attempts : List Attempt
three_attempts = (late_wire, message_a) ∷ (unroutable_wire, message_a) ∷ (good_wire, message_a) ∷ []

recover_stale_lem_example :
    (recover_stale all_up 1000 60 three_rows).0
    ≡ ok (map message_of_task (order_by older_first (tasks_where (is_lost (1000 - 60)) three_rows)))
recover_stale_lem_example = recover_stale_lem 1000 60 three_rows

abbrev live_flow : Flow
live_flow = record { conn = record { alive = true; broken = false }; forwarded = [] }

-- Two deliveries, a tick that comes too soon, and one after a minute with a backlog.
abbrev stalled : List PumpEvent
stalled =
    delivery 10 1 true
    ∷ tick 30000 (ok 4)
    ∷ delivery 31000 2 true
    ∷ tick 120000 (ok 4)
    ∷ delivery 120001 3 true
    ∷ []

pump-IsHandedOn_example : IsHandedOn stalled live_flow (pump 0 stalled live_flow)
pump-IsHandedOn_example = pump-IsHandedOn 0 stalled live_flow

abbrev no_channel : Round
no_channel = record {
  alive = true;
  dial_ok = true;
  channel_ok = false;
  qos_ok = true;
  consume_ok = true;
  started = 0;
  events = [];
  slept = true;
}

abbrev eleven_rounds : List Round
eleven_rounds =
    no_channel ∷ no_channel ∷ no_channel ∷ no_channel ∷ no_channel ∷ no_channel ∷ no_channel
    ∷ no_channel ∷ no_channel ∷ no_channel ∷ no_channel ∷ []

supervise-fatal_example :
    ((supervise 0 eleven_rounds live_flow).0 ≡ fatal → HasStreak eleven_rounds)
    × (All (λ r. r.slept ≡ true) eleven_rounds
        → Streak 11 eleven_rounds live_flow.conn
        → (supervise 0 eleven_rounds live_flow).0 ≡ fatal)
supervise-fatal_example = supervise-fatal eleven_rounds live_flow
