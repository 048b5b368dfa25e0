-- ===== src/Ingest/Pipeline.antt =====
-- Pipeline.Run (deepwiki/internal/ingest/pipeline.go) over any store `T` and any context `X` of the
-- stages. `report` is the ProgressReport, `snapshot` snapshotStats. The environment says whether the
-- context is done when a stage is about to start, with its error, and whether the bus takes an event.
pub mod Trail
pub mod Chain
pub mod Outcome
use godeepwiki.Common.{
  ℕ, ◌+◌, Bool, List, [], ◌∷◌, ◌++◌, Option, none, some, if◌then◌else◌, Result, ok, err,
}
use godeepwiki.Model.Task.{
  TaskState, Progress, Stats, pending, cloning, parsing, chunking, embedding, persisting, outlining,
  generating, fetching, diffing, completed, failed, cancelled,
}
use godeepwiki.Model.Errors.{Error}

pub record Stage (X : Type 0) : Type 0 where
  pub name : TaskState
  pub fn : X → Result Error (Unit {0}) × X

-- StageWeights; a state that is not in the map counts 0.
unfoldable pub stage_weight : TaskState → ℕ
stage_weight cloning = 15
stage_weight parsing = 10
stage_weight chunking = 10
stage_weight embedding = 50
stage_weight persisting = 15
stage_weight fetching = 20
stage_weight diffing = 10
stage_weight outlining = 10
stage_weight generating = 90
stage_weight pending = 0
stage_weight completed = 0
stage_weight failed = 0
stage_weight cancelled = 0

-- StageError, or an error that is passed on as it is.
pub data RunError : Type 0 where
  stage_error : TaskState → Error → RunError
  plain : Error → RunError

pub record StageEvent : Type 0 where
  pub state : TaskState
  pub progress : Progress
  pub stats : Stats

pub record PipelineEnv : Type 0 where
  pub done : TaskState → Option Error
  pub bus_ok : TaskState → Bool

pub record Running (T X : Type 0) : Type 0 where
  pub store : T
  pub context : X
  pub events : List StageEvent

abbrev pub out_of_100 : ℕ → Progress
out_of_100 n = record { current = n; total = 100; percent = n }

abbrev pub Ended : Type 0 → Type 0 → Type 0
Ended T X = Result RunError (Unit {0}) × Running T X

module _ {T X : Type 0} (env : PipelineEnv)
    (report : TaskState → Progress → Stats → T → Result Error (Unit {0}) × T)
    (snapshot : X → Stats) where
  unfoldable pub publish_state : TaskState → Progress → Stats → List StageEvent → List StageEvent
  publish_state state progress stats events =
      if env.bus_ok state
      then events ++ (record { state = state; progress = progress; stats = stats }) ∷ []
      else events

  -- The report, and the event if the report went through.
  unfoldable pub announced :
      TaskState
      → Progress
      → Running T X
      → Result Error (Unit {0}) × T
      → Result Error (Unit {0}) × Running T X
  unfolding publish_state
  announced state progress r (err e, store) = (err e, record r { store = store })
  announced state progress r (ok _, store) = (
    ok tt,
    record r { store = store; events = publish_state state progress (snapshot r.context) r.events },
  )

  unfoldable pub announce :
      TaskState → Progress → Running T X → Result Error (Unit {0}) × Running T X
  unfolding announced
  announce state progress r =
      announced state progress r (report state progress (snapshot r.context) r.store)

  unfoldable pub finished : Result Error (Unit {0}) × Running T X → Ended T X
  finished (err e, r) = (err (plain e), r)
  finished (ok _, r) = (ok tt, r)

  -- What a stage's function returned: its error, or on with `rest`.
  unfoldable pub worked :
      TaskState → (Running T X → Ended T X) → Running T X → Result Error (Unit {0}) × X → Ended T X
  worked name rest r (err e, context) = (err (stage_error name e), record r { context = context })
  worked name rest r (ok _, context) = rest (record r { context = context })

  -- A stage that was announced does its work.
  unfoldable pub work :
      Stage X → (Running T X → Ended T X) → Result Error (Unit {0}) × Running T X → Ended T X
  unfolding worked
  work st rest (err e, r) = (err (plain e), r)
  work st rest (ok _, r) = worked st.name rest r (st.fn r.context)

  -- The check of the context comes before the announcement.
  unfoldable pub enter :
      Stage X → (Running T X → Ended T X) → Running T X → Option Error → ℕ → Ended T X
  unfolding announce work
  enter st rest r (some e) cumulative = (err (plain e), r)
  enter st rest r none cumulative = work st rest (announce st.name (out_of_100 cumulative) r)

  unfoldable pub run_stages : ℕ → List (Stage X) → Running T X → Ended T X
  unfolding announce finished enter stage_weight
  run_stages cumulative [] r = finished (announce completed (out_of_100 100) r)
  run_stages cumulative (st ∷ rest) r =
      let after = run_stages (cumulative + stage_weight st.name) rest in
      enter st after r (env.done st.name) cumulative

  unfoldable pub run_pipeline : List (Stage X) → Running T X → Ended T X
  unfolding run_stages
  run_pipeline stages r = run_stages 0 stages r
