-- ===== src/Store/Landing.antt =====
-- Where UpdateState of task/store.go leaves the state of its task.
use godeepwiki.Common.{
  ℕ, ◌≡◌, ◌≢◌, refl, sym, ◌∙◌, Bool, true, false, not, ◌&&◌, String, none, some, Option-cases,
  Bool-cases, Result-cases, inl, inr, ok, arith, eq_iff, [], ◌∷◌, is_some, subst, or_else,
  if◌then◌else◌,
}
use godeepwiki.Model.Task.{TaskState, TaskPatch, failed, can_transition, same_state, is_terminal}
use godeepwiki.Store.Table.{
  Row, Table, find_row, update_where, has_id, state_of, affected, find_row-update_where,
  find_row-id,
}
use godeepwiki.Store.Ops.{check_patch, apply_patch, update_locked, update_state}

check_patch-state :
    (cur to : TaskState) (patch p : TaskPatch) (now : ℕ)
    → check_patch cur (some to) patch now ≡ ok p
    → p.state ≡ patch.state
unfolding check_patch
check_patch-state cur to patch p now h =
    elim (Bool-cases (not (same_state to cur) && not (can_transition cur to))) [
      | inl bad ↦ absurd (let no = rw bad at h in cc)
      | inr good ↦ elim (Bool-cases (same_state to failed && not (is_some patch.error))) [
        | inl bad ↦ absurd (let no = rw (good, bad) at h in cc)
        | inr fine ↦ (let got = rw (good, fine) at h in cc)
      ]
    ]

patched_state :
    (id : String) (to : TaskState) (p : TaskPatch) (now : ℕ) (table : Table) (r : Row)
    → find_row id table ≡ some r
    → p.state ≡ some to
    → state_of id (update_where (has_id id) (apply_patch p now) table) ≡ some to
unfolding apply_patch
patched_state id to p now table r found e =
    rw (find_row-update_where id (has_id id) (apply_patch p now) table (λ x. refl), found)
      (ground (arith, eq_iff r.task.task_id id, find_row-id id table r found))

locked-lands :
    (writes_ok : Bool) (now : ℕ) (id : String) (to : TaskState) (patch : TaskPatch) (table : Table)
    (r : Row)
    → patch.state ≡ some to
    → find_row id table ≡ some r
    → (update_locked writes_ok now id patch table (some r)).0 ≡ ok tt
    → state_of id (update_locked writes_ok now id patch table (some r)).1 ≡ some to
unfolding update_locked
locked-lands writes_ok now id to patch table r e found h =
    elim (Result-cases (check_patch r.task.state patch.state patch now)) [
      | inr (x, c) ↦ absurd (let no = rw (c, update_locked) at h in cc)
      | inl (p, c) ↦ elim (Bool-cases writes_ok) [
        | inr kept ↦ absurd (let no = rw (c, kept, update_locked) at h in cc)
        | inl wrote ↦
            rw (c, update_locked)
              (rw wrote (
                patched_state id to p now table r found (
                  check_patch-state r.task.state to patch p now
                    (subst (λ o. check_patch r.task.state o patch now ≡ ok p) e c)
                  ∙ e)))
      ]
    ]

-- A call that returns no error has put the task into the state of its patch.
pub update_state-lands :
    (reads_ok writes_ok : Bool) (now : ℕ) (id : String) (to : TaskState) (patch : TaskPatch)
    (table : Table)
    → patch.state ≡ some to
    → (update_state reads_ok writes_ok now id patch table).0 ≡ ok tt
    → state_of id (update_state reads_ok writes_ok now id patch table).1 ≡ some to
unfolding update_state update_locked
update_state-lands false writes_ok now id to patch table e h = absurd (ground arith)
update_state-lands true writes_ok now id to patch table e h =
    elim (Option-cases (find_row id table)) [
      | inl missing ↦ absurd (let no = rw (missing, update_state) at h in cc)
      | inr (r, found) ↦
          rw (found, update_state)
            (locked-lands writes_ok now id to patch table r e found (rw (found, update_state) at h))
    ]

has_row :
    (id : String) (table : Table) (r : Row)
    → find_row id table ≡ some r
    → affected (has_id id) table ≢ 0
unfolding find_row
has_row id [] r h = ground arith
has_row id (x ∷ table) r h = ground (arith, has_row id table r)

and_false : (b : Bool) → (b && false) ≡ false
and_false true = refl
and_false false = refl

abbrev stamped : TaskState → TaskPatch → ℕ → TaskPatch
stamped to patch now = record patch {
  finished_at = or_else patch.finished_at (if is_terminal to then some now else none);
}

check_patch-passes :
    (cur to : TaskState) (patch : TaskPatch) (now : ℕ)
    → can_transition cur to ≡ true
    → (same_state to failed ≡ true → is_some patch.error ≡ true)
    → check_patch cur (some to) patch now ≡ ok (stamped to patch now)
unfolding check_patch
check_patch-passes cur to patch now legal why = elim (Bool-cases (same_state to failed)) [
  | inl fails ↦ rw legal (rw fails (rw (why fails) (rw (and_false (not (same_state to cur))))))
  | inr moves ↦ rw legal (rw moves (rw (and_false (not (same_state to cur)))))
]

-- If the database answers, the checks pass and the task is there, the call succeeds.
pub update_state-goes :
    (now : ℕ) (id : String) (from to : TaskState) (patch : TaskPatch) (table : Table)
    → state_of id table ≡ some from
    → patch.state ≡ some to
    → (can_transition from to ≡ true)
    → (same_state to failed ≡ true → is_some patch.error ≡ true)
    → (update_state true true now id patch table).0 ≡ ok tt
unfolding update_state update_locked check_patch
update_state-goes now id from to patch table was e legal why =
    elim (Option-cases (find_row id table)) [
      | inl missing ↦ absurd (let no = rw missing at was in cc)
      | inr (r, found) ↦
          let same : from ≡ r.task.state = cc (was, found) in
          let passes =
            check_patch-passes r.task.state to patch now
              (subst (λ s. can_transition s to ≡ true) same legal) why in
          let c =
            subst (λ o. check_patch r.task.state o patch now ≡ ok (stamped to patch now)) (sym e)
              passes in
          rw (found, update_state)
            (rw (c, update_locked) (ground (arith, has_row id table r found)))
    ]
