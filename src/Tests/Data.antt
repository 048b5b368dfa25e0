-- ===== src/Tests/Data.antt =====
-- Tasks, a table and the manager's world for the examples.
use godeepwiki.Common.{ℕ, Bool, true, false, [], ◌∷◌, Option, none, some, String}
use godeepwiki.Model.Task.{
  Task, TaskType, TaskState, TaskError, ingest, refresh, wiki, other, pending, completed, parsing,
  at_state,
}
use godeepwiki.Store.Table.{Row, Table}
use godeepwiki.Queue.Rabbit.{TaskMessage}
use godeepwiki.Queue.Publisher.{Wire, Publisher, ack, depth_is}
use godeepwiki.Manager.State.{World, Config}
use godeepwiki.Manager.Submit.{SubmitEnv, CancelEnv}
use godeepwiki.Manager.Dispatch.{DispatchEnv, Delivery, Executor, panicked, number}

abbrev pub task_of : String → TaskType → TaskState → Option TaskError → Option ℕ → Task
task_of id type state error finished_at = record {
  task_id = id;
  type = type;
  repo_id = "repo_1";
  state = state;
  progress = record { current = 0; total = 0; percent = 0 };
  stats = record { files = 0; chunks = 0; tokens = 0 };
  error = error;
  queue_position = 1;
  cancel_flag = false;
  request_payload = "";
  created_at = 10;
  started_at = none;
  finished_at = finished_at;
}

abbrev pub waiting_task : Task
waiting_task = task_of "task_a" ingest pending none none

abbrev pub parsing_task : Task
parsing_task = task_of "task_b" ingest parsing none none

abbrev pub done_task : Task
done_task = task_of "task_c" wiki completed none (some 90)

abbrev pub refresh_task : Task
refresh_task = task_of "task_d" refresh pending none none

abbrev pub row_of : Task → Row
row_of t = record { task = t; updated_at = 10 }

abbrev pub three_rows : Table
three_rows = row_of waiting_task ∷ row_of parsing_task ∷ row_of done_task ∷ []

abbrev pub timeout_error : TaskError
timeout_error = record { code = 50001; message = "timeout"; stage = at_state parsing }

abbrev pub good_wire : Wire
good_wire = record {
  dial_ok = true;
  channel_ok = true;
  confirm_ok = true;
  send_ok = true;
  confirm = some ack;
  returned = false;
  confirm_taken = true;
}

abbrev pub fresh_publisher : Publisher
fresh_publisher = record {
  conn = record { alive = true; broken = false };
  channel = none;
  closed = false;
  sent = [];
}

abbrev pub quiet_world : World
quiet_world = record {
  table = three_rows;
  locks = [];
  publisher = fresh_publisher;
  refresh_locks = [];
  cancels = [];
  inflight = [];
  settled = [];
  events = [];
}

abbrev pub small_config : Config
small_config = record { queue_size = 4; max_retries = 3; has_locker = true }

abbrev pub all_well : DispatchEnv
all_well = record {
  now = 100;
  get_ok = true;
  claim_ok = true;
  reads_ok = true;
  writes_ok = true;
  reset_ok = true;
  fail_ok = true;
  release_ok = true;
  retry_wire = good_wire;
  dlq_wire = good_wire;
}

abbrev pub message_a : TaskMessage
message_a = record { task_id = "task_a"; type = ingest }

abbrev pub message_b : TaskMessage
message_b = record { task_id = "task_b"; type = ingest }

abbrev pub delivery_of : TaskMessage → ℕ → Delivery
delivery_of m n = record { tag = 7; body = some m; retries = number n }

-- An executor that panics, for ingest tasks only.
abbrev pub panicking : TaskType → Option Executor
panicking ingest = some (λ t table. (panicked, table))
panicking refresh = none
panicking wiki = none
panicking (other name) = none

abbrev pub submit_env : ℕ → Bool → SubmitEnv
submit_env depth create_ok = record {
  now = 100;
  new_task_id = "task_n";
  token = "secret";
  acquire_ok = true;
  release_ok = true;
  depth = depth_is depth 1;
  create_ok = create_ok;
  wire = good_wire;
  fail_ok = true;
  bus_ok = true;
}

abbrev pub cancel_env : CancelEnv
cancel_env = record { now = 100; get_ok = true; flag_ok = true; reads_ok = true; writes_ok = true }
