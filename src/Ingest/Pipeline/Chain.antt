-- ===== src/Ingest/Pipeline/Chain.antt =====
-- A rule for the contexts of a run of the pipeline (deepwiki/internal/ingest/pipeline.go): what each stage
-- ensures when it succeeds, the next may use.
use godeepwiki.Common.{ℕ, ◌+◌, List, [], ◌∷◌, Option, none, some, Result, ok, err}
use godeepwiki.Model.Task.{TaskState, Progress, Stats, completed}
use godeepwiki.Model.Errors.{Error}
use godeepwiki.Ingest.Pipeline.{
  Stage, PipelineEnv, Running, Ended, stage_weight, out_of_100, announce, announced, finished,
  worked, work, enter, run_stages, publish_state,
}

abbrev pub Ensures : {X : Type 0} → (X → Type 0) → Result Error (Unit {0}) × X → Type 0
Ensures P (ok _, x) = P x
Ensures P (err e, x) = Unit {0}

abbrev pub EndsWith : {T X : Type 0} → (X → Type 0) → Ended T X → Type 0
EndsWith P (ok _, r) = P r.context
EndsWith P (err e, r) = Unit {0}

-- A condition between any two stages, from `P` before the first to `Q` after the last.
pub data Chain {X : Type 0} (Q : X → Type 0) : (X → Type 0) → List (Stage X) → Type 1 where
  end : {P : X → Type 0} → ((x : X) → P x → Q x) → Chain Q P []
  link :
      {P : X → Type 0} {st : Stage X} {rest : List (Stage X)} (M : X → Type 0)
      → ((x : X) → P x → Ensures M (st.fn x))
      → Chain Q M rest
      → Chain Q P (st ∷ rest)

module _ {T X : Type 0} (env : PipelineEnv)
    (report : TaskState → Progress → Stats → T → Result Error (Unit {0}) × T)
    (snapshot : X → Stats) where
  finished-EndsWith :
      (Q : X → Type 0) (r : Running T X) (reply : Result Error (Unit {0}) × T)
      → Q r.context
      → EndsWith Q (
          finished env report snapshot
            (announced env report snapshot completed (out_of_100 100) r reply))
  unfolding announced finished
  finished-EndsWith Q r (ok _, t) q = q
  finished-EndsWith Q r (err e, t) q = tt

  worked-EndsWith :
      (M Q : X → Type 0) (s : TaskState) (rest : Running T X → Ended T X) (r : Running T X)
      (reply : Result Error (Unit {0}) × X)
      → Ensures M reply
      → ((q : Running T X) → M q.context → EndsWith Q (rest q))
      → EndsWith Q (worked env report snapshot s rest r reply)
  unfolding worked
  worked-EndsWith M Q s rest r (ok _, x) m ih = ih (record r { context = x }) m
  worked-EndsWith M Q s rest r (err e, x) m ih = tt

  work-EndsWith :
      (M Q : X → Type 0) (st : Stage X) (n : ℕ) (rest : Running T X → Ended T X) (r : Running T X)
      (reply : Result Error (Unit {0}) × T)
      → Ensures M (st.fn r.context)
      → ((q : Running T X) → M q.context → EndsWith Q (rest q))
      → EndsWith Q (
          work env report snapshot st rest
            (announced env report snapshot st.name (out_of_100 n) r reply))
  unfolding work announced
  work-EndsWith M Q st n rest r (err e, t) m ih = tt
  work-EndsWith M Q st n rest r (ok _, t) m ih =
      worked-EndsWith M Q st.name rest
        (record r {
          store = t;
          events =
              publish_state env report snapshot st.name (out_of_100 n) (snapshot r.context)
                r.events;
        })
        (st.fn r.context) m ih

  enter-EndsWith :
      (M Q : X → Type 0) (st : Stage X) (n : ℕ) (rest : Running T X → Ended T X) (r : Running T X)
      (done : Option Error)
      → Ensures M (st.fn r.context)
      → ((q : Running T X) → M q.context → EndsWith Q (rest q))
      → EndsWith Q (enter env report snapshot st rest r done n)
  unfolding enter announce
  enter-EndsWith M Q st n rest r (some e) m ih = tt
  enter-EndsWith M Q st n rest r none m ih = work-EndsWith M Q st n rest r _ m ih

  pub run_stages-EndsWith :
      (Q : X → Type 0) {P : X → Type 0} {stages : List (Stage X)}
      → Chain Q P stages
      → (n : ℕ) (r : Running T X) → P r.context
      → EndsWith Q (run_stages env report snapshot n stages r)
  unfolding run_stages announce
  run_stages-EndsWith Q (end done) n r p = finished-EndsWith Q r _ (done r.context p)
  run_stages-EndsWith Q (link {st = st} {rest = rest} M step chain) n r p =
      enter-EndsWith M Q st n _ r (env.done st.name) (step r.context p)
        (λ q m. run_stages-EndsWith Q chain (n + stage_weight st.name) q m)
