-- ===== src/Queue/Routing.antt =====
-- Where the messages of rabbitmq.go and publisher.go go, by any broker whose direct exchanges send a
-- message to the queues that are bound to its key.
use godeepwiki.Common.{
  ℕ, zero, suc, subst, ◌≡◌, refl, ◌⊎◌, inl, inr, ◌&&◌, String, List, [], ◌∷◌, Option, none, some,
  arith, str_eq, eq_iff, ◌↔◌, get_elem?, if◌then◌else◌, Bool-cases,
}
use godeepwiki.Queue.Rabbit.{
  Binding, RetryQueue, topology, bindings_of, exchange_tasks, exchange_dlx, queue_jobs, queue_dlq,
  queue_retry_5s, queue_retry_30s, queue_retry_5m, retry_queues, QueueArgs, job_args, retry_args,
}

-- Some binding sends key k at exchange e to queue q.
abbrev pub Bound : List Binding → String → String → String → Type 0
Bound [] e k q = ⊥
Bound (b ∷ bs) e k q = ((b.queue ≡ q) × (b.key ≡ k) × (b.exchange ≡ e)) ⊎ Bound bs e k q

-- What AMQP says of a direct exchange: a message with key k reaches the queues bound with key k.
pub record DirectRouting : Type 1 where
  pub Routes : List Binding → String → String → String → Type 0
  pub by_binding : (bs : List Binding) (e k q : String) → Routes bs e k q ↔ Bound bs e k q

-- Where a queue sends a message that it drops: its dead-letter exchange, under its dead-letter key
-- or, with none given, the message's own.
abbrev pub dead_letter : QueueArgs → String → Option (String × String)
dead_letter args key = elim args.dead_letter_exchange [
  | none ↦ none
  | some e ↦ some (e, elim args.dead_letter_routing_key [ none ↦ key | some k ↦ k ])
]

abbrev bound_queues : List Binding → String → String → List String
bound_queues [] e k = []
bound_queues (b ∷ bs) e k =
    let rest = bound_queues bs e k in
    if str_eq b.key k && str_eq b.exchange e then b.queue ∷ rest else rest

abbrev OneOf : String → List String → Type 0
OneOf q [] = ⊥
OneOf q (x ∷ xs) = (x ≡ q) ⊎ OneOf q xs

Bound-OneOf : (bs : List Binding) (e k q : String) → Bound bs e k q ↔ OneOf q (bound_queues bs e k)
Bound-OneOf [] e k q = (λ h. h, λ h. h)
Bound-OneOf (b ∷ bs) e k q = elim (Bool-cases (str_eq b.key k && str_eq b.exchange e)) [
  | inl hit ↦ rw hit (
    λ h. elim h [ inl t ↦ inl t.0 | inr t ↦ inr ((Bound-OneOf bs e k q).0 t) ],
    λ h. elim h [
      | inl t ↦
          inl (t, ground (arith, hit, eq_iff b.key k), ground (arith, hit, eq_iff b.exchange e))
      | inr t ↦ inr ((Bound-OneOf bs e k q).1 t)
    ],
  )
  | inr miss ↦ rw miss (
    λ h. elim h [
      | inl t ↦ absurd (ground (arith, miss, t, eq_iff b.key k, eq_iff b.exchange e))
      | inr t ↦ (Bound-OneOf bs e k q).0 t
    ],
    λ h. inr ((Bound-OneOf bs e k q).1 h),
  )
]

module _ (broker : DirectRouting) (max_len : ℕ) where
  -- The message reaches this queue and no other.
  abbrev pub GoesOnlyTo : String → String → String → Type 0
  GoesOnlyTo e k target =
      (q : String) → broker.Routes (bindings_of (topology max_len)) e k q ↔ (target ≡ q)

  only :
      (e k target : String)
      → bound_queues (bindings_of (topology max_len)) e k ≡ target ∷ []
      → GoesOnlyTo e k target
  only e k target h q =
      let law = broker.by_binding (bindings_of (topology max_len)) e k q in
      let list = Bound-OneOf (bindings_of (topology max_len)) e k q in
      (
        λ r. elim (rw h at (list.0 (law.0 r))) [ inl t ↦ t | inr t ↦ absurd t ],
        λ t. law.1 (list.1 (rw h (inl t))),
      )

  -- A new task goes to the jobs queue only. A message that the jobs queue drops, by a rejection
  -- without requeue, has the key of the jobs queue at the dead-letter exchange, and so goes to the
  -- dead-letter queue only, past the retry queues.
  pub jobs_routing :
      GoesOnlyTo exchange_tasks queue_jobs queue_jobs
      × (dead_letter (job_args max_len) queue_jobs ≡ some (exchange_dlx, queue_jobs))
      × GoesOnlyTo exchange_dlx queue_jobs queue_dlq
      × GoesOnlyTo exchange_dlx queue_dlq queue_dlq
  jobs_routing = (
    only exchange_tasks queue_jobs queue_jobs refl,
    refl,
    only exchange_dlx queue_jobs queue_dlq refl,
    only exchange_dlx queue_dlq queue_dlq refl,
  )

  retry_binding :
      (attempt : ℕ) (rq : RetryQueue)
      → get_elem? retry_queues attempt ≡ some rq
      → GoesOnlyTo exchange_dlx rq.name rq.name
  retry_binding zero rq h =
      let q : record { name = queue_retry_5s; ttl = 5000 } ≡ rq = ground arith in
      subst (λ (r : RetryQueue). GoesOnlyTo exchange_dlx r.name r.name) q
        (only exchange_dlx queue_retry_5s queue_retry_5s refl)
  retry_binding (suc zero) rq h =
      let q : record { name = queue_retry_30s; ttl = 30000 } ≡ rq = ground arith in
      subst (λ (r : RetryQueue). GoesOnlyTo exchange_dlx r.name r.name) q
        (only exchange_dlx queue_retry_30s queue_retry_30s refl)
  retry_binding (suc (suc zero)) rq h =
      let q : record { name = queue_retry_5m; ttl = 300000 } ≡ rq = ground arith in
      subst (λ (r : RetryQueue). GoesOnlyTo exchange_dlx r.name r.name) q
        (only exchange_dlx queue_retry_5m queue_retry_5m refl)
  retry_binding (suc (suc (suc n))) rq h = absurd (ground arith)

  -- A message for a retry queue goes there only, and what expires there goes back to the jobs queue
  -- only.
  pub retry_routing :
      (attempt : ℕ) (rq : RetryQueue)
      → get_elem? retry_queues attempt ≡ some rq
      → GoesOnlyTo exchange_dlx rq.name rq.name
        × (dead_letter (retry_args max_len rq) rq.name ≡ some (exchange_tasks, queue_jobs))
        × GoesOnlyTo exchange_tasks queue_jobs queue_jobs
  retry_routing attempt rq h = (retry_binding attempt rq h, refl, jobs_routing.0)
