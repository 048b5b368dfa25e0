-- ===== src/Model/Task.antt =====
-- deepwiki/internal/model/task.go: the task record, its states and the table of legal transitions.
-- Times are numbers (0 is Go's zero time), a nil pointer is `none`, and the request payload is its
-- text. A `TaskType` is one of the three constants or any other text.
pub mod Lifecycle
pub mod Pipelines
use godeepwiki.Common.{
  ℕ, String, Bool, true, false, ◌||◌, List, [], ◌∷◌, Option, none, some, ◌==◌, str_eq,
}

pub data TaskType : Type 0 where
  ingest refresh wiki : TaskType
  other : String → TaskType

pub data TaskState : Type 0 where
  pending cloning parsing chunking embedding persisting outlining generating : TaskState
  fetching diffing completed failed cancelled : TaskState

-- The text of a state stands for it in Go; here a state is told apart by its number.
abbrev pub state_index : TaskState → ℕ
state_index pending = 0
state_index cloning = 1
state_index parsing = 2
state_index chunking = 3
state_index embedding = 4
state_index persisting = 5
state_index outlining = 6
state_index generating = 7
state_index fetching = 8
state_index diffing = 9
state_index completed = 10
state_index failed = 11
state_index cancelled = 12

abbrev pub same_state : TaskState → TaskState → Bool
same_state s t = state_index s == state_index t

unfoldable pub is_terminal : TaskState → Bool
is_terminal s = same_state s completed || (same_state s failed || same_state s cancelled)

unfoldable pub valid_transitions : TaskState → List TaskState
valid_transitions pending = cloning ∷ outlining ∷ fetching ∷ cancelled ∷ []
valid_transitions cloning = parsing ∷ cancelled ∷ failed ∷ []
valid_transitions parsing = chunking ∷ cancelled ∷ failed ∷ []
valid_transitions chunking = embedding ∷ cancelled ∷ failed ∷ []
valid_transitions embedding = persisting ∷ cancelled ∷ failed ∷ []
valid_transitions persisting = completed ∷ cancelled ∷ failed ∷ []
valid_transitions outlining = generating ∷ cancelled ∷ failed ∷ []
valid_transitions generating = completed ∷ cancelled ∷ failed ∷ []
valid_transitions fetching = diffing ∷ cancelled ∷ failed ∷ []
valid_transitions diffing = chunking ∷ cancelled ∷ failed ∷ []
valid_transitions completed = []
valid_transitions failed = []
valid_transitions cancelled = []

-- The loop over the row of the table.
abbrev pub among : TaskState → List TaskState → Bool
among to [] = false
among to (s ∷ ss) = same_state s to || among to ss

unfoldable pub can_transition : TaskState → TaskState → Bool
unfolding valid_transitions
can_transition from to = among to (valid_transitions from)

pub record Progress : Type 0 where
  pub current : ℕ
  pub total : ℕ
  pub percent : ℕ

pub record Stats : Type 0 where
  pub files : ℕ
  pub chunks : ℕ
  pub tokens : ℕ

-- The stage is a text in Go: a state's name, or the reason that a dead letter carries.
pub data Stage : Type 0 where
  at_state : TaskState → Stage
  death : String → Stage

pub record TaskError : Type 0 where
  pub code : ℕ
  pub message : String
  pub stage : Stage

pub record Task : Type 0 where
  pub task_id : String
  pub type : TaskType
  pub repo_id : String
  pub state : TaskState
  pub progress : Progress
  pub stats : Stats
  pub error : Option TaskError
  pub queue_position : ℕ
  pub cancel_flag : Bool
  pub request_payload : String
  pub created_at : ℕ
  pub started_at : Option ℕ
  pub finished_at : Option ℕ

pub record TaskFilter : Type 0 where
  pub type : Option TaskType
  pub state : Option TaskState
  pub repo_id : String
  pub page : ℕ
  pub page_size : ℕ

pub record TaskPatch : Type 0 where
  pub state : Option TaskState
  pub progress : Option Progress
  pub stats : Option Stats
  pub error : Option TaskError
  pub clear_err : Bool
  pub queue_position : Option ℕ
  pub started_at : Option ℕ
  pub finished_at : Option ℕ

-- The patch with every pointer nil.
abbrev pub empty_patch : TaskPatch
empty_patch = record {
  state = none;
  progress = none;
  stats = none;
  error = none;
  clear_err = false;
  queue_position = none;
  started_at = none;
  finished_at = none;
}

abbrev pub same_type : TaskType → TaskType → Bool
same_type ingest ingest = true
same_type refresh refresh = true
same_type wiki wiki = true
same_type (other a) (other b) = str_eq a b
same_type _ _ = false
