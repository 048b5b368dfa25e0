-- ===== src/Model/Task/Pipelines.antt =====
-- The chains of legal transitions (model/task.go) that end in success.
use godeepwiki.Common.{◌≡◌, refl, sym, ap, ◌∙◌, ◌⊎◌, inl, inr, ◌≢◌, true, List, [], ◌∷◌, arith}
use godeepwiki.Model.Task.{
  TaskState, pending, cloning, parsing, chunking, embedding, persisting, outlining, generating,
  fetching, diffing, completed, failed, cancelled, can_transition,
}
use godeepwiki.Model.Task.Lifecycle.{IsLegal}

abbrev pub last_state : TaskState → List TaskState → TaskState
last_state s [] = s
last_state s (t ∷ ts) = last_state t ts

-- The stages that are left after a stage, up to the completion.
abbrev pub remaining : TaskState → List TaskState
remaining cloning = parsing ∷ chunking ∷ embedding ∷ persisting ∷ completed ∷ []
remaining parsing = chunking ∷ embedding ∷ persisting ∷ completed ∷ []
remaining chunking = embedding ∷ persisting ∷ completed ∷ []
remaining embedding = persisting ∷ completed ∷ []
remaining persisting = completed ∷ []
remaining outlining = generating ∷ completed ∷ []
remaining generating = completed ∷ []
remaining fetching = diffing ∷ chunking ∷ embedding ∷ persisting ∷ completed ∷ []
remaining diffing = chunking ∷ embedding ∷ persisting ∷ completed ∷ []
remaining _ = []

-- A step of a running task goes to an abort or to the next stage.
step_cases :
    (s t : TaskState)
    → s ≢ pending
    → can_transition s t ≡ true
    → ((t ≡ cancelled) ⊎ (t ≡ failed)) ⊎ (remaining s ≡ t ∷ remaining t)
unfolding can_transition
step_cases pending t h e = absurd (h refl)
step_cases _ t h e = ground arith

step-ne-pending : (s t : TaskState) → can_transition s t ≡ true → t ≢ pending
unfolding can_transition
step-ne-pending s t e = ground arith

-- Nothing follows an abort.
abort_stuck :
    (t : TaskState) (ts : List TaskState)
    → (t ≡ cancelled) ⊎ (t ≡ failed)
    → IsLegal t ts
    → last_state t ts ≢ completed
unfolding can_transition
abort_stuck t [] h l = ground arith
abort_stuck t (u ∷ ts) h l = ground arith

-- A legal chain that begins at a running stage and ends in `completed` passes through each stage
-- that is left, in order, and through no other state: no stage is skipped or repeated.
pub completed_chain :
    (s : TaskState) (ts : List TaskState)
    → s ≢ pending
    → IsLegal s ts
    → last_state s ts ≡ completed
    → ts ≡ remaining s
completed_chain s [] h l e = ground arith
completed_chain s (t ∷ ts) h l e = elim (step_cases s t h l.0) [
  | inl abort ↦ absurd (abort_stuck t ts abort l.1 e)
  | inr next ↦ ap (◌∷◌ t) (completed_chain t ts (step-ne-pending s t l.0) l.1 e) ∙ sym next
]
