-- ===== src/Queue/Rabbit.antt =====
-- deepwiki/internal/queue/rabbitmq.go: the topology that DeclareTopology asks the broker for, and the
-- connection wrapper. The broker is not part of the program: what it does with a message is a
-- parameter of the theorems.
use godeepwiki.Common.{
  ℕ, suc, Bool, true, false, not, ◌&&◌, String, List, [], ◌∷◌, ◌++◌, Option, none, some,
  if◌then◌else◌, Result, ok, err,
}
use godeepwiki.Model.Task.{TaskType}
use godeepwiki.Model.Errors.{Error, wrapped}

abbrev pub exchange_tasks : String
exchange_tasks = "deepwiki.tasks"

abbrev pub queue_jobs : String
queue_jobs = "deepwiki.task.jobs"

abbrev pub exchange_dlx : String
exchange_dlx = "deepwiki.tasks.dlx"

abbrev pub queue_dlq : String
queue_dlq = "deepwiki.task.dlq"

abbrev pub queue_retry_5s : String
queue_retry_5s = "deepwiki.task.retry.5s"

abbrev pub queue_retry_30s : String
queue_retry_30s = "deepwiki.task.retry.30s"

abbrev pub queue_retry_5m : String
queue_retry_5m = "deepwiki.task.retry.5m"

pub record RetryQueue : Type 0 where
  pub name : String
  pub ttl : ℕ

abbrev pub retry_queues : List RetryQueue
retry_queues =
    record { name = queue_retry_5s; ttl = 5000 }
    ∷ record { name = queue_retry_30s; ttl = 30000 }
    ∷ record { name = queue_retry_5m; ttl = 300000 }
    ∷ []

-- The thin message: a task's key and type.
pub record TaskMessage : Type 0 where
  pub task_id : String
  pub type : TaskType

-- The arguments of a queue; where no dead-letter key is given, a dead letter keeps its own.
pub record QueueArgs : Type 0 where
  pub dead_letter_exchange : Option String
  pub dead_letter_routing_key : Option String
  pub message_ttl : Option ℕ
  pub max_length : Option ℕ
  pub reject_publish : Bool

pub record Binding : Type 0 where
  pub queue : String
  pub key : String
  pub exchange : String

pub data Declaration : Type 0 where
  declare_exchange : String → Declaration
  declare_queue : String → QueueArgs → Declaration
  bind_queue : Binding → Declaration

abbrev bind : String → String → String → Declaration
bind queue key exchange = bind_queue (record { queue = queue; key = key; exchange = exchange })

abbrev pub job_args : ℕ → QueueArgs
job_args max_len = record {
  dead_letter_exchange = some exchange_dlx;
  dead_letter_routing_key = none;
  message_ttl = none;
  max_length = some max_len;
  reject_publish = true;
}

abbrev pub retry_args : ℕ → RetryQueue → QueueArgs
retry_args max_len rq = record {
  dead_letter_exchange = some exchange_tasks;
  dead_letter_routing_key = some queue_jobs;
  message_ttl = some rq.ttl;
  max_length = some max_len;
  reject_publish = false;
}

abbrev pub dlq_args : QueueArgs
dlq_args = record {
  dead_letter_exchange = none;
  dead_letter_routing_key = none;
  message_ttl = none;
  max_length = none;
  reject_publish = false;
}

abbrev retry_declarations : ℕ → List RetryQueue → List Declaration
retry_declarations max_len [] = []
retry_declarations max_len (rq ∷ rqs) =
    declare_queue rq.name (retry_args max_len rq)
    ∷ bind rq.name rq.name exchange_dlx
    ∷ retry_declarations max_len rqs

-- The calls of DeclareTopology, in their order.
abbrev pub topology : ℕ → List Declaration
topology max_len =
    declare_exchange exchange_tasks
    ∷ declare_exchange exchange_dlx
    ∷ declare_queue queue_jobs (job_args max_len)
    ∷ bind queue_jobs queue_jobs exchange_tasks
    ∷ (retry_declarations max_len retry_queues
        ++ (declare_queue queue_dlq dlq_args
            ∷ bind queue_dlq queue_dlq exchange_dlx
            ∷ bind queue_dlq queue_jobs exchange_dlx
            ∷ []))

-- DeclareTopology stops at the first call that the broker refuses; `refused i` is the i-th call.
declare_from :
    (ℕ → Bool)
    → ℕ
    → List Declaration
    → List Declaration
    → Result Error (Unit {0}) × List Declaration
declare_from refused i done [] = (ok tt, done)
declare_from refused i done (d ∷ ds) =
    let rest = declare_from refused (suc i) (done ++ d ∷ []) ds in
    if refused i then (err (wrapped "rabbitmq declare"), done) else rest

unfoldable pub declare_topology : (ℕ → Bool) → ℕ → Result Error (Unit {0}) × List Declaration
unfolding declare_from
declare_topology refused max_len = declare_from refused 0 [] (topology max_len)

abbrev pub bindings_of : List Declaration → List Binding
bindings_of [] = []
bindings_of (bind_queue b ∷ ds) = b ∷ bindings_of ds
bindings_of (declare_exchange e ∷ ds) = bindings_of ds
bindings_of (declare_queue q a ∷ ds) = bindings_of ds

-- `alive`: there is a connection and it is not closed. `broken`: it was marked half dead.
pub record Conn : Type 0 where
  pub alive : Bool
  pub broken : Bool

unfoldable pub ensure_connection : Bool → Conn → Result Error (Unit {0}) × Conn
ensure_connection dial_ok c =
    if c.alive && not c.broken
    then (ok tt, c)
    else if dial_ok
    then (ok tt, record { alive = true; broken = false })
    else (err (wrapped "rabbitmq redial"), c)

unfoldable pub force_close : Conn → Conn
force_close c = record c { broken = true }

-- Whether a new channel is to be had; the mark is not looked at here.
unfoldable pub open_channel : Bool → Conn → Result Error (Unit {0})
open_channel channel_ok c =
    if c.alive && channel_ok then ok tt else err (wrapped "rabbitmq connection closed")
