-- ===== src/Store/Claim.antt =====
-- The compare-and-set that takes a pending task (ClaimPending of task/store.go).
use godeepwiki.Common.{
  ℕ, suc, ◌≡◌, refl, ap, inl, inr, Bool, true, false, ◌&&◌, List, [], ◌∷◌, Option, none, some,
  String, arith, Option-cases, Bool-cases, if◌then◌else◌, Result, ok, err,
}
use godeepwiki.Model.Task.{TaskState, pending, same_state, can_transition}
use godeepwiki.Store.Table.{Row, Table, find_row, state_of, has_id, find_row-update_where}
use godeepwiki.Store.Ops.{claim_pending}
use godeepwiki.Store.Keys.{Unique, affected-find_row, has_id-find_row, update_where-Unique}

abbrev pub is_pending : Option TaskState → Bool
is_pending none = false
is_pending (some s) = same_state s pending

abbrev pub is_won : Result godeepwiki.Model.Errors.Error Bool → Bool
is_won (ok b) = b
is_won (err e) = false

abbrev claimable : String → Row → Bool
claimable id r = has_id id r && same_state r.task.state pending

abbrev take_row : ℕ → TaskState → Row → Row
take_row now to r = record {
  task = record r.task { state = to; started_at = some now };
  updated_at = now;
}

-- What one claim does to the row of its key.
pub claim_pending_lem :
    (now : ℕ) (id : String) (to : TaskState) (t : Table)
    → Unique t
    → can_transition pending to ≡ true
    → ((claim_pending true now id to t).0 ≡ ok (is_pending (state_of id t)))
      × (state_of id (claim_pending true now id to t).1
          ≡ (if is_pending (state_of id t) then some to else state_of id t))
      × Unique (claim_pending true now id to t).1
unfolding claim_pending
claim_pending_lem now id to t u h =
    rw (h, claim_pending)
      (
        elim (Option-cases (find_row id t)) [
          | inl missing ↦
              rw (affected-find_row id (λ r. same_state r.task.state pending) t u, missing)
          | inr (r, found) ↦
              rw (affected-find_row id (λ r. same_state r.task.state pending) t u, found)
                (ground arith)
        ],
        rw (find_row-update_where id (claimable id) (take_row now to) t (λ r. refl))
            (elim (Option-cases (find_row id t)) [
              | inl missing ↦ rw missing
              | inr (r, found) ↦ rw (found, has_id-find_row id t r found) (ground arith)
            ]),
        update_where-Unique _ _ t (λ r. refl) u,
      )

-- A worker that claims a task, at a time of its own.
abbrev pub Claimant : Type 0
Claimant = ℕ × TaskState

-- The workers that win the task, when they claim it one after the other.
unfoldable pub winners : String → List Claimant → Table → ℕ
winners id [] t = 0
winners id ((now, to) ∷ cs) t =
    let rest = winners id cs (claim_pending true now id to t).1 in
    if is_won (claim_pending true now id to t).0 then suc rest else rest

abbrev pub Claimable : List Claimant → Type 0
Claimable [] = Unit {0}
Claimable ((now, to) ∷ cs) = (can_transition pending to ≡ true) × Claimable cs

not_pending : (to : TaskState) → can_transition pending to ≡ true → same_state to pending ≡ false
unfolding can_transition
not_pending to h = ground arith

winners_none :
    (id : String) (cs : List Claimant) (t : Table)
    → Unique t
    → Claimable cs
    → is_pending (state_of id t) ≡ false
    → winners id cs t ≡ 0
unfolding winners
winners_none id [] t u c h = refl
winners_none id ((now, to) ∷ cs) t u c h =
    let (won, state, u') = claim_pending_lem now id to t u c.0 in
    rw (won, h) (winners_none id cs _ u' c.1 (rw (state, h) h))

-- Of any workers that claim one task, each for a state that may follow `pending`, while the
-- database carries out the claims and has at most one row for an identifier: exactly one wins if
-- the task was pending, and none if it was not there or not pending.
pub winners_one :
    (id : String) (c : Claimant) (cs : List Claimant) (t : Table)
    → Unique t
    → Claimable (c ∷ cs)
    → winners id (c ∷ cs) t ≡ (if is_pending (state_of id t) then 1 else 0)
unfolding winners
winners_one id (now, to) cs t u c =
    let (won, state, u') = claim_pending_lem now id to t u c.0 in
    elim (Bool-cases (is_pending (state_of id t))) [
      | inl yes' ↦
          rw (won, yes')
            (ap suc (winners_none id cs _ u' c.1 (rw (state, yes') (not_pending to c.0))))
      | inr no' ↦ rw (won, no') (winners_none id cs _ u' c.1 (rw (state, no') no'))
    ]
