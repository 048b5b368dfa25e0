-- ===== src/Queue/Confirms.antt =====
-- What publishes of publisher.go deliver, one after the other, and what a failure leaves behind.
use mathlib.Core.List.{Sublistᴰ}
use godeepwiki.Common.{
  ◌≡◌, ◌⊎◌, Bool, true, false, not, ◌&&◌, ◌||◌, List, [], ◌∷◌, ◌++◌, map, Option, none, some, arith,
  Result, ok, err, if◌then◌else◌,
}
use godeepwiki.Model.Errors.{Error}
use godeepwiki.Queue.Rabbit.{TaskMessage}
use godeepwiki.Queue.Publisher.{
  Confirm, ack, nack, confirms_closed, Wire, Publisher, job_message, publish_failed, ensure_channel,
  publish, selected, confirmed, timed_out,
}

-- The messages that a caller publishes, with what the broker does, and those that were reported as
-- published.
abbrev pub Attempt : Type 0
Attempt = Wire × TaskMessage

abbrev reported : Result Error (Unit {0}) → TaskMessage → List TaskMessage → List TaskMessage
reported (ok _) m ms = m ∷ ms
reported (err e) m ms = ms

unfoldable pub publish_all : List Attempt → Publisher → List TaskMessage × Publisher
unfolding publish
publish_all [] p = ([], p)
publish_all ((w, m) ∷ rest) p =
    let (res, q) = publish w m p in let (ms, end) = publish_all rest q in (reported res m ms, end)

-- The messages of the attempts that pass a test.
abbrev pub messages_where : (Wire → Bool) → List Attempt → List TaskMessage
messages_where f [] = []
messages_where f ((w, m) ∷ rest) = if f w then m ∷ messages_where f rest else messages_where f rest

abbrev pub any_wire : Wire → Bool
any_wire w = true

abbrev is_ack : Option Confirm → Bool
is_ack (some ack) = true
is_ack (some nack) = false
is_ack (some confirms_closed) = false
is_ack none = false

-- An ack came, and no return was taken in its place.
abbrev pub is_acked : Wire → Bool
is_acked w = is_ack w.confirm && (not w.returned || w.confirm_taken)

-- Network and broker are up, and the message has its queue.
abbrev pub is_fine : Wire → Bool
is_fine w =
    w.dial_ok
    && (w.channel_ok && (w.confirm_ok && (w.send_ok && (is_ack w.confirm && not w.returned))))

-- Of the messages of the attempts: those that went out, which hold those that were reported, which
-- hold those of the fine attempts.
abbrev pub IsFaithful : List Attempt → Publisher → List TaskMessage × Publisher → Type 0
IsFaithful attempts p (ms, end) =
    (out : List TaskMessage) × Sublistᴰ ms out
    × Sublistᴰ out (messages_where any_wire attempts)
    × (end.sent ≡ p.sent ++ map job_message out)
    × Sublistᴰ ms (messages_where is_acked attempts)
    × (p.closed ≡ false → Sublistᴰ (messages_where is_fine attempts) ms)

-- After a refused, missing or late confirmation the publisher has dropped its channel and marked
-- the connection, so a later publish sends nothing unless a new connection is dialled.
pub publish_resets :
    (w w' : Wire) (m m' : TaskMessage) (p : Publisher)
    → p.closed ≡ false
    → (ensure_channel w p).0 ≡ ok tt
    → w.send_ok ≡ true
    → (selected w ≡ confirmed nack)
      ⊎ ((selected w ≡ confirmed confirms_closed) ⊎ (selected w ≡ timed_out))
    → let q = (publish w m p).1 in
      (q.channel ≡ none)
      × (q.conn.broken ≡ true)
      × ((publish w m p).0 ≡ err publish_failed)
      × (w'.dial_ok ≡ false → (publish w' m' q).1.sent ≡ q.sent)
unfolding publish
publish_resets w w' m m' p c e s o = (ground arith, ground arith, ground arith, λ d. ground arith)
