-- ===== src/Queue/Consumer/Pumping.antt =====
-- What the pump hands on (deepwiki/internal/queue/consumer.go).
use mathlib.Core.List.{append_assoc, append-nil}
use godeepwiki.Common.{
  ℕ, suc, ◌-◌, ◌*◌, ◌≡◌, refl, ap, sym, ◌∙◌, Bool, true, false, List, [], ◌∷◌, ◌++◌, Bool-cases,
  inl, inr, ◌⊎◌, ltb, Result, ok, err, take,
}
use godeepwiki.Model.Errors.{Error}
use godeepwiki.Queue.Rabbit.{force_close}
use godeepwiki.Queue.Consumer.{
  PumpEvent, ctx_done, stopped, closed, tick, delivery, Pumped, exits, lost, pumping, Flow, ticked,
  pump,
}

-- The tags of the deliveries among the events.
abbrev pub tags : List PumpEvent → List ℕ
tags [] = []
tags (ctx_done ∷ es) = tags es
tags (stopped ∷ es) = tags es
tags (closed ∷ es) = tags es
tags (tick now depth ∷ es) = tags es
tags (delivery now tag taken ∷ es) = tag ∷ tags es

-- The deliveries of the first events, in order; all of them if the pump still waits. The connection
-- is as it was, or is marked as broken and the pump has given up.
abbrev pub IsHandedOn : List PumpEvent → Flow → Pumped × Flow → Type 0
IsHandedOn es f (how, f') =
    ((n : ℕ) × (f'.forwarded ≡ f.forwarded ++ take n (tags es)))
    × (how ≡ pumping → f'.forwarded ≡ f.forwarded ++ tags es)
    × ((f'.conn ≡ f.conn) ⊎ ((how ≡ lost) × (f'.conn ≡ force_close f.conn)))

ends-IsHandedOn :
    (es : List PumpEvent) (f : Flow) (how : Pumped)
    → (how ≡ pumping → tags es ≡ [])
    → IsHandedOn es f (how, f)
ends-IsHandedOn es f how waits = (
  (0, sym (append-nil f.forwarded)),
  (λ h. sym (append-nil f.forwarded) ∙ ap (λ ts. f.forwarded ++ ts) (sym (waits h))),
  inl refl,
)

delivery-IsHandedOn :
    (now tag : ℕ) (taken : Bool) (es : List PumpEvent) (f : Flow) (reply : Pumped × Flow)
    → IsHandedOn es (record f { forwarded = f.forwarded ++ tag ∷ [] }) reply
    → IsHandedOn (delivery now tag taken ∷ es) f reply
delivery-IsHandedOn now tag taken es f (how, f') ((n, is), all, conn) = (
  (suc n, is ∙ append_assoc f.forwarded (tag ∷ []) (take n (tags es))),
  (λ h. all h ∙ append_assoc f.forwarded (tag ∷ []) (tags es)),
  conn,
)

ticked-IsHandedOn :
    (now : ℕ) (depth answer : Result Error ℕ) (es : List PumpEvent) (f : Flow)
    (rest : Flow → Pumped × Flow)
    → IsHandedOn es f (rest f)
    → IsHandedOn (tick now answer ∷ es) f (ticked depth rest f)
ticked-IsHandedOn now (err e) answer es f rest h = h
ticked-IsHandedOn now (ok n) answer es f rest h = elim (Bool-cases (ltb 0 n)) [
  | inr empty ↦ rw empty h
  | inl backlog ↦
      rw backlog ((0, sym (append-nil f.forwarded)), (λ gone. absurd (cc)), inr (refl, refl))
]

-- The pump hands on the deliveries in the order in which they come, from the first one on and
-- without a gap; while it waits for more, every one that has come. It marks the connection as broken
-- only when it gives up for a new one.
pub pump-IsHandedOn : (last : ℕ) (es : List PumpEvent) (f : Flow) → IsHandedOn es f (pump last es f)
unfolding pump
pump-IsHandedOn last [] f = ends-IsHandedOn [] f pumping (λ h. refl)
pump-IsHandedOn last (ctx_done ∷ es) f = ends-IsHandedOn (ctx_done ∷ es) f exits (λ h. absurd (cc))
pump-IsHandedOn last (stopped ∷ es) f = ends-IsHandedOn (stopped ∷ es) f exits (λ h. absurd (cc))
pump-IsHandedOn last (closed ∷ es) f = ends-IsHandedOn (closed ∷ es) f lost (λ h. absurd (cc))
pump-IsHandedOn last (tick now depth ∷ es) f = elim (Bool-cases (ltb (now - last) (60 * 1000))) [
  | inl soon ↦ rw soon (pump-IsHandedOn last es f)
  | inr late ↦
      rw late (ticked-IsHandedOn now depth depth es f (pump last es) (pump-IsHandedOn last es f))
]
pump-IsHandedOn last (delivery now tag true ∷ es) f =
    delivery-IsHandedOn now tag true es f
      (pump now es (record f { forwarded = f.forwarded ++ tag ∷ [] }))
      (pump-IsHandedOn now es (record f { forwarded = f.forwarded ++ tag ∷ [] }))
pump-IsHandedOn last (delivery now tag false ∷ es) f =
    ends-IsHandedOn (delivery now tag false ∷ es) f exits (λ h. absurd (cc))
