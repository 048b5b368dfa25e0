-- ===== src/Queue/Consumer.antt =====
-- Consumer (deepwiki/internal/queue/consumer.go): the supervising loop and the pump, on the events that the
-- select statements see, in order. Times are milliseconds.
pub mod Pumping
pub mod Retrying
use godeepwiki.Common.{
  ℕ, suc, ◌-◌, ◌*◌, Bool, true, false, List, [], ◌∷◌, ◌++◌, if◌then◌else◌, ltb, leb, Result, ok,
  err, ◌>>=◌, ◌>>◌, reject_if, not,
}
use godeepwiki.Model.Errors.{Error, wrapped}
use godeepwiki.Queue.Rabbit.{Conn, ensure_connection, force_close, open_channel}

abbrev pub reconnect_max_tries : ℕ
reconnect_max_tries = 10

-- NewConsumer: a prefetch count of 0 is 2.
unfoldable pub prefetch_of : ℕ → ℕ
prefetch_of prefetch = if leb prefetch 0 then 2 else prefetch

-- A tick of the watchdog comes with the depth of the queue, if it is asked for; a delivery with
-- whether it is handed on before the context is done.
pub data PumpEvent : Type 0 where
  ctx_done stopped closed : PumpEvent
  tick : ℕ → Result Error ℕ → PumpEvent
  delivery : (now tag : ℕ) → Bool → PumpEvent

pub data Pumped : Type 0 where
  exits lost pumping : Pumped

-- The connection, and the tags of the deliveries that were handed on.
pub record Flow : Type 0 where
  pub conn : Conn
  pub forwarded : List ℕ

abbrev pub ticked : Result Error ℕ → (Flow → Pumped × Flow) → Flow → Pumped × Flow
ticked (err e) rest f = rest f
ticked (ok depth) rest f =
    if ltb 0 depth then (lost, record f { conn = force_close f.conn }) else rest f

-- `last` is the time of the last delivery; with no event left the pump still waits.
unfoldable pub pump : ℕ → List PumpEvent → Flow → Pumped × Flow
unfolding force_close
pump last [] f = (pumping, f)
pump last (ctx_done ∷ es) f = (exits, f)
pump last (stopped ∷ es) f = (exits, f)
pump last (closed ∷ es) f = (lost, f)
pump last (tick now depth ∷ es) f =
    let rest = pump last es in if ltb (now - last) (60 * 1000) then rest f else ticked depth rest f
pump last (delivery now tag taken ∷ es) f =
    let rest = pump now es in
    if taken then rest (record f { forwarded = f.forwarded ++ tag ∷ [] }) else (exits, f)

-- One round of the supervising loop: what the network answers, the events of the pump, and whether
-- the pause after it is slept through.
pub record Round : Type 0 where
  pub alive : Bool
  pub dial_ok : Bool
  pub channel_ok : Bool
  pub qos_ok : Bool
  pub consume_ok : Bool
  pub started : ℕ
  pub events : List PumpEvent
  pub slept : Bool

-- The connection when a round begins: it may have died in the meantime.
abbrev pub found_conn : Round → Conn → Conn
found_conn r c = record c { alive = if r.alive then c.alive else false }

unfoldable pub start_consume : Round → Conn → Result Error (Unit {0}) × Conn
unfolding ensure_connection open_channel
start_consume r c =
    let (reply, c') = ensure_connection r.dial_ok (found_conn r c) in
    (
      (do
        reply
        open_channel r.channel_ok c'
        reject_if (not r.qos_ok) (wrapped "consumer qos")
        reject_if (not r.consume_ok) (wrapped "consumer consume")),
      c',
    )

-- `fatal` ends the process, `over` the loop.
pub data Supervised : Type 0 where
  fatal over going : Supervised

abbrev pub after_pump : Bool → (Flow → Supervised × Flow) → Pumped × Flow → Supervised × Flow
after_pump slept rest (exits, f) = (over, f)
after_pump slept rest (pumping, f) = (going, f)
after_pump slept rest (lost, f) = if slept then rest f else (over, f)

-- A round by the reply of startConsume; `again` counts one try more, `afresh` begins to count anew.
abbrev pub round :
    ℕ
    → Round
    → (Flow → Supervised × Flow)
    → (Flow → Supervised × Flow)
    → Flow
    → Result Error (Unit {0}) × Conn
    → Supervised × Flow
round retries r again afresh f (err e, c) =
    if ltb reconnect_max_tries (suc retries)
    then (fatal, record f { conn = c })
    else if r.slept
    then again (record f { conn = c })
    else (over, record f { conn = c })
round retries r again afresh f (ok _, c) =
    after_pump r.slept afresh (pump r.started r.events (record f { conn = c }))

unfoldable pub supervise : ℕ → List Round → Flow → Supervised × Flow
unfolding start_consume pump
supervise retries [] f = (going, f)
supervise retries (r ∷ rs) f =
    let again = supervise (suc retries) rs in
    let afresh = supervise 0 rs in round retries r again afresh f (start_consume r f.conn)
