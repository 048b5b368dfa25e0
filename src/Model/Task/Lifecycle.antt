-- ===== src/Model/Task/Lifecycle.antt =====
-- Facts about the transition table of model/task.go that hold of every state.
use godeepwiki.Common.{ℕ, ◌+◌, ◌≤◌, ◌<◌, ◌≡◌, true, false, not, List, [], ◌∷◌, arith, length}
use godeepwiki.Model.Task.{
  TaskState, pending, cloning, parsing, chunking, embedding, persisting, outlining, generating,
  fetching, diffing, completed, failed, cancelled, same_state, is_terminal, can_transition,
}

pub same_state_eq : (s t : TaskState) → same_state s t ≡ true → s ≡ t
same_state_eq s t h = ground arith

pub same_state_refl : (s : TaskState) → same_state s s ≡ true
same_state_refl s = ground arith

pub same_state_sym : (s t : TaskState) → same_state s t ≡ same_state t s
same_state_sym s t = ground arith

-- A state can be cancelled exactly when it is not terminal, and a terminal state can go nowhere.
pub can_transition-cancelled :
    (s : TaskState)
    → (can_transition s cancelled ≡ not (is_terminal s))
      × ((t : TaskState) → is_terminal s ≡ true → can_transition s t ≡ false)
unfolding can_transition is_terminal
can_transition-cancelled s = (ground arith, λ t h. ground arith)

-- How many steps at most a state is from the start.
abbrev pub rank : TaskState → ℕ
rank pending = 0
rank cloning = 1
rank fetching = 1
rank outlining = 1
rank parsing = 2
rank diffing = 2
rank generating = 2
rank chunking = 3
rank embedding = 4
rank persisting = 5
rank completed = 6
rank failed = 6
rank cancelled = 6

pub can_transition-rank : (s t : TaskState) → can_transition s t ≡ true → rank s < rank t
unfolding can_transition
can_transition-rank s t h = ground arith

-- A list of states each of which may follow the one before it.
abbrev pub IsLegal : TaskState → List TaskState → Type 0
IsLegal s [] = Unit {0}
IsLegal s (t ∷ ts) = (can_transition s t ≡ true) × IsLegal t ts

rank_le : (t : TaskState) → rank t ≤ 6
rank_le t = ground arith

IsLegal-rank : (s : TaskState) (ts : List TaskState) → IsLegal s ts → length ts + rank s ≤ 6
IsLegal-rank s [] h = omega (arith, rank_le s)
IsLegal-rank s (t ∷ ts) h = omega (arith, can_transition-rank s t h.0, IsLegal-rank t ts h.1)

-- Every chain of legal transitions ends: it has at most six steps.
pub IsLegal-length : (s : TaskState) (ts : List TaskState) → IsLegal s ts → length ts ≤ 6
IsLegal-length s ts h = omega (arith, IsLegal-rank s ts h)
