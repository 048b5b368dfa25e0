-- ===== src/Queue/Publisher.antt =====
-- deepwiki/internal/queue/publisher.go: publishing with confirms. What the broker and the network do
-- in one call is a value of `Wire`.
use godeepwiki.Common.{
  ℕ, ◌+◌, Bool, true, false, not, ◌&&◌, String, List, [], ◌∷◌, ◌++◌, Option, none, some,
  if◌then◌else◌, Result, ok, err, get_elem?,
}
use godeepwiki.Model.Errors.{Error, wrapped}
use godeepwiki.Queue.Rabbit.{
  TaskMessage, Conn, ensure_connection, force_close, open_channel, exchange_tasks, exchange_dlx,
  queue_jobs, queue_dlq, retry_queues,
}

-- What a confirm channel gives: an ack or a nack of the broker, or its end.
pub data Confirm : Type 0 where
  ack nack confirms_closed : Confirm

-- What comes in the time of one call: a confirmation, of whatever message, since the code compares
-- no delivery tag, and the return of an unroutable message. When both come, `confirm_taken` is the
-- choice of the select: either may be the first to be ready, and if both are, Go takes any.
pub record Wire : Type 0 where
  pub dial_ok : Bool
  pub channel_ok : Bool
  pub confirm_ok : Bool
  pub send_ok : Bool
  pub confirm : Option Confirm
  pub returned : Bool
  pub confirm_taken : Bool

-- The case that a select takes.
pub data Selected : Type 0 where
  confirmed : Confirm → Selected
  message_returned timed_out : Selected

-- A message on its way: exchange, routing key, body and the retry header, if one is set.
pub record Sent : Type 0 where
  pub exchange : String
  pub key : String
  pub message : TaskMessage
  pub retry_count : Option ℕ

-- `channel`: nil, or whether the channel is still open. `sent`: what went out, the newest last.
pub record Publisher : Type 0 where
  pub conn : Conn
  pub channel : Option Bool
  pub closed : Bool
  pub sent : List Sent

abbrev pub publish_failed : Error
publish_failed = wrapped "rabbitmq publish not confirmed"

abbrev has_open_channel : Option Bool → Bool
has_open_channel none = false
has_open_channel (some b) = b

-- The channel in hand, or a new one in confirm mode on a living connection.
unfoldable pub ensure_channel : Wire → Publisher → Result Error (Unit {0}) × Publisher
unfolding ensure_connection open_channel
ensure_channel w p =
    if has_open_channel p.channel then (ok tt, p) else elim (ensure_connection w.dial_ok p.conn).0 [
      | err e ↦ (err e, record p { conn = (ensure_connection w.dial_ok p.conn).1 })
      | ok _ ↦ elim (open_channel w.channel_ok (ensure_connection w.dial_ok p.conn).1) [
        | err e ↦ (err e, record p { conn = (ensure_connection w.dial_ok p.conn).1 })
        | ok _ ↦
            if w.confirm_ok
            then (
              ok tt,
              record p { conn = (ensure_connection w.dial_ok p.conn).1; channel = some true },
            )
            else (
              err (wrapped "confirm"),
              record p { conn = (ensure_connection w.dial_ok p.conn).1 },
            )
      ]
    ]

-- resetLocked: forget the channel and mark the connection.
unfoldable pub reset_locked : Publisher → Publisher
unfolding force_close
reset_locked p = record p { channel = none; conn = force_close p.conn }

-- The select of Publish.
unfoldable pub selected : Wire → Selected
selected w = elim w.confirm [
  | none ↦ if w.returned then message_returned else timed_out
  | some c ↦ if w.returned && not w.confirm_taken then message_returned else confirmed c
]

-- The select of publishTo has no case for a return.
unfoldable pub selected_unreturned : Wire → Selected
selected_unreturned w = elim w.confirm [ none ↦ timed_out | some c ↦ confirmed c ]

-- What follows: only a returned message leaves the channel in hand after a failure.
unfoldable pub settle : Selected → Publisher → Result Error (Unit {0}) × Publisher
unfolding reset_locked
settle (confirmed ack) p = (ok tt, p)
settle (confirmed nack) p = (err publish_failed, reset_locked p)
settle (confirmed confirms_closed) p = (err publish_failed, reset_locked p)
settle message_returned p = (err publish_failed, p)
settle timed_out p = (err publish_failed, reset_locked p)

abbrev send : Wire → Selected → Sent → Publisher → Result Error (Unit {0}) × Publisher
send w taken m p =
    if w.send_ok
    then settle taken (record p { sent = p.sent ++ m ∷ [] })
    else (err publish_failed, p)

-- Publish and publishTo differ in the exchange, the key, the headers, the mandatory flag and the
-- select.
abbrev publish_message : Wire → Selected → Sent → Publisher → Result Error (Unit {0}) × Publisher
publish_message w taken m p =
    if p.closed then (err publish_failed, p) else elim (ensure_channel w p).0 [
      | err e ↦ (err publish_failed, (ensure_channel w p).1)
      | ok _ ↦ send w taken m (ensure_channel w p).1
    ]

-- What Publish sends: no retry header.
abbrev pub job_message : TaskMessage → Sent
job_message msg = record {
  exchange = exchange_tasks;
  key = queue_jobs;
  message = msg;
  retry_count = none;
}

unfoldable pub publish : Wire → TaskMessage → Publisher → Result Error (Unit {0}) × Publisher
unfolding ensure_channel selected settle
publish w msg p = publish_message w (selected w) (job_message msg) p

unfoldable pub publish_to :
    Wire
    → String
    → String
    → TaskMessage
    → Option ℕ
    → Publisher
    → Result Error (Unit {0}) × Publisher
unfolding ensure_channel selected_unreturned settle
publish_to w exchange key msg retry_count p =
    publish_message w (selected_unreturned w)
      (record { exchange = exchange; key = key; message = msg; retry_count = retry_count }) p

unfoldable pub publish_to_dlq : Wire → TaskMessage → Publisher → Result Error (Unit {0}) × Publisher
unfolding publish_to
publish_to_dlq w msg p = publish_to w exchange_dlx queue_dlq msg none p

-- By the attempt: one of the retry queues, with the count in the header, or the dead-letter queue.
unfoldable pub publish_retry :
    Wire → TaskMessage → ℕ → Publisher → Result Error (Unit {0}) × Publisher
unfolding publish_to publish_to_dlq
publish_retry w msg attempt p = elim (get_elem? retry_queues attempt) [
  | none ↦ publish_to_dlq w msg p
  | some rq ↦ publish_to w exchange_dlx rq.name msg (some (attempt + 1)) p
]

-- What the passive declaration of the jobs queue answers, in time or not.
pub data DepthReply : Type 0 where
  depth_is : ℕ → ℕ → DepthReply
  not_declared : DepthReply
  depth_failed : DepthReply

-- A queue that is not declared counts as empty.
unfoldable pub queue_stats : DepthReply → Result Error (ℕ × ℕ)
queue_stats (depth_is depth consumers) = ok (depth, consumers)
queue_stats not_declared = ok (0, 0)
queue_stats depth_failed = err (wrapped "rabbitmq queue depth")

unfoldable pub queue_depth : DepthReply → Result Error ℕ
unfolding queue_stats
queue_depth reply = elim (queue_stats reply) [ ok (depth, consumers) ↦ ok depth | err e ↦ err e ]

unfoldable pub close : Publisher → Publisher
close p = record p { closed = true; channel = elim p.channel [ none ↦ none | some _ ↦ some false ] }
