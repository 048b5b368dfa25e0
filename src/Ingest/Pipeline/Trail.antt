-- ===== src/Ingest/Pipeline/Trail.antt =====
-- The events of a run of the pipeline (deepwiki/internal/ingest/pipeline.go).
use godeepwiki.Common.{ℕ, ◌+◌, ◌≡◌, true, List, [], ◌∷◌, ◌++◌, map, Result, ok, err}
use godeepwiki.Model.Task.{TaskState, Progress, Stats, completed}
use godeepwiki.Model.Errors.{Error}
use godeepwiki.Ingest.Pipeline.{Stage, StageEvent, PipelineEnv, Running, Ended, stage_weight}

abbrev pub IsPrefix {ℓ} : {A : Type ℓ} → List A → List A → Type ℓ
IsPrefix {A} xs ys = (rest : List A) × (xs ++ rest ≡ ys)

-- The states with their percentages, in the order in which the events were published.
abbrev pub trail : List StageEvent → List (TaskState × ℕ)
trail = map (λ e. (e.state, e.progress.percent))

-- Each stage with the weight of those before it, and 100 at the end.
abbrev pub plan_from : {X : Type 0} → ℕ → List (Stage X) → List (TaskState × ℕ)
plan_from n [] = (completed, 100) ∷ []
plan_from n (st ∷ rest) = (st.name, n) ∷ plan_from (n + stage_weight st.name) rest

-- A run that succeeds has published the whole plan after what was there, any other an initial part.
abbrev pub Follows :
    {T X : Type 0} → List (TaskState × ℕ) → List (TaskState × ℕ) → Ended T X → Type 0
Follows before plan (ok _, r) = trail r.events ≡ before ++ plan
Follows before plan (err _, r) = IsPrefix (trail r.events) (before ++ plan)

module _ {T X : Type 0} (env : PipelineEnv)
    (report : TaskState → Progress → Stats → T → Result Error (Unit {0}) × T) (snapshot : X → Stats)
    (bus : (s : TaskState) → env.bus_ok s ≡ true) where
  abbrev After : Type 0
  After = Running T X → Ended T X
