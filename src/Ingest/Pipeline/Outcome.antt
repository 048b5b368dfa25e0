-- ===== src/Ingest/Pipeline/Outcome.antt =====
-- What the outcome of a run says of the task's state (deepwiki/internal/ingest/pipeline.go), when the
-- reports go to UpdateState.
use godeepwiki.Common.{
  ℕ, ◌+◌, ◌≡◌, refl, Bool, String, List, [], ◌∷◌, Option, none, some, Result, ok, err, All,
}
use godeepwiki.Model.Task.{TaskState, TaskPatch, Progress, Stats, empty_patch, completed}
use godeepwiki.Model.Errors.{Error}
use godeepwiki.Store.Table.{Table, state_of}
use godeepwiki.Store.Ops.{update_state}
use godeepwiki.Store.Landing.{update_state-lands}
use godeepwiki.Ingest.Pipeline.{
  Stage, PipelineEnv, Running, Ended, stage_weight, out_of_100, announce, announced, finished,
  worked, work, enter, run_stages, plain, stage_error, publish_state,
}

-- The patch that the executors' reports write.
abbrev pub progress_patch : TaskState → Progress → Stats → TaskPatch
progress_patch state progress stats = record empty_patch {
  state = some state;
  progress = some progress;
  stats = some stats;
}

abbrev pub report_to :
    Bool
    → Bool
    → ℕ
    → String
    → TaskState
    → Progress
    → Stats
    → Table
    → Result Error (Unit {0}) × Table
report_to reads_ok writes_ok now id state progress stats table =
    update_state reads_ok writes_ok now id (progress_patch state progress stats) table

-- A run that succeeds leaves the task completed; one that fails in a stage leaves it in that stage,
-- one of the list.
abbrev pub IsSettledAt : {X : Type 0} → String → (TaskState → Type 0) → Ended Table X → Type 0
IsSettledAt id Good (ok _, r) = state_of id r.store ≡ some completed
IsSettledAt id Good (err (stage_error s e), r) = (state_of id r.store ≡ some s) × Good s
IsSettledAt id Good (err (plain e), r) = Unit {0}

module _ {X : Type 0} (env : PipelineEnv) (reads_ok writes_ok : Bool) (now : ℕ) (id : String)
    (snapshot : X → Stats) (Good : TaskState → Type 0) where
  abbrev After : Type 0
  After = Running Table X → Ended Table X

  abbrev report : TaskState → Progress → Stats → Table → Result Error (Unit {0}) × Table
  report = report_to reads_ok writes_ok now id

  -- What a reply to a report is, with the state that an ok brings.
  abbrev Lands : TaskState → Result Error (Unit {0}) × Table → Type 0
  Lands s (ok _, table) = state_of id table ≡ some s
  Lands s (err e, table) = Unit {0}

  Lands_lem :
      (s : TaskState) (reply : Result Error (Unit {0}) × Table)
      → (reply.0 ≡ ok tt → state_of id reply.1 ≡ some s)
      → Lands s reply
  Lands_lem s (ok _, table) h = h refl
  Lands_lem s (err e, table) h = tt

  finished-IsSettledAt :
      (r : Running Table X) (reply : Result Error (Unit {0}) × Table)
      → Lands completed reply
      → IsSettledAt id Good (
          finished env report snapshot
            (announced env report snapshot completed (out_of_100 100) r reply))
  unfolding announced finished
  finished-IsSettledAt r (ok _, table) h = h
  finished-IsSettledAt r (err e, table) h = tt

  worked-IsSettledAt :
      (s : TaskState) (rest : After) (r : Running Table X) (reply : Result Error (Unit {0}) × X)
      → state_of id r.store ≡ some s
      → Good s
      → ((q : Running Table X) → IsSettledAt id Good (rest q))
      → IsSettledAt id Good (worked env report snapshot s rest r reply)
  unfolding worked
  worked-IsSettledAt s rest r (ok _, x) h good ih = ih (record r { context = x })
  worked-IsSettledAt s rest r (err e, x) h good ih = (h, good)

  work-IsSettledAt :
      (st : Stage X) (n : ℕ) (rest : After) (r : Running Table X)
      (reply : Result Error (Unit {0}) × Table)
      → Lands st.name reply
      → Good st.name
      → ((q : Running Table X) → IsSettledAt id Good (rest q))
      → IsSettledAt id Good (
          work env report snapshot st rest
            (announced env report snapshot st.name (out_of_100 n) r reply))
  unfolding work announced
  work-IsSettledAt st n rest r (err e, table) h good ih = tt
  work-IsSettledAt st n rest r (ok _, table) h good ih =
      worked-IsSettledAt st.name rest
        (record r {
          store = table;
          events =
              publish_state env report snapshot st.name (out_of_100 n) (snapshot r.context)
                r.events;
        })
        (st.fn r.context) h good ih

  enter-IsSettledAt :
      (st : Stage X) (n : ℕ) (rest : After) (r : Running Table X) (done : Option Error)
      → Good st.name
      → ((q : Running Table X) → IsSettledAt id Good (rest q))
      → IsSettledAt id Good (enter env report snapshot st rest r done n)
  unfolding enter announce
  enter-IsSettledAt st n rest r (some e) good ih = tt
  enter-IsSettledAt st n rest r none good ih =
      work-IsSettledAt st n rest r _
        (Lands_lem st.name _ (update_state-lands reads_ok writes_ok now id st.name _ r.store refl))
        good ih

  -- Whatever the database, the bus, the context and the stages do: a run that returns no error has
  -- left the task `completed`, and a run that returns the error of a stage has left it in the state
  -- of that stage, which is the name of one of the stages.
  pub run_stages-IsSettledAt :
      (n : ℕ) (stages : List (Stage X)) (r : Running Table X)
      → All (λ st. Good st.name) stages
      → IsSettledAt id Good (run_stages env report snapshot n stages r)
  unfolding run_stages announce
  run_stages-IsSettledAt n [] r good = finished-IsSettledAt r _ (
      Lands_lem completed _ (update_state-lands reads_ok writes_ok now id completed _ r.store refl))
  run_stages-IsSettledAt n (st ∷ rest) r good =
      enter-IsSettledAt st n _ r (env.done st.name) good.0
        (λ q. run_stages-IsSettledAt (n + stage_weight st.name) rest q good.1)
