-- ===== src/Store/Moves.antt =====
-- How the operations of task/store.go move the state of a task.
use godeepwiki.Common.{
  ℕ, ◌≡◌, ap, ◌∙◌, Result-cases, subst, sym, refl, inl, inr, Bool, true, false, not, List, [], ◌∷◌,
  Option, none, some, String, arith, eq_iff, Option-cases, Bool-cases, is_some, not, ◌&&◌, ok,
}
use godeepwiki.Model.Task.{
  same_state, Task, TaskState, TaskError, TaskPatch, pending, failed, is_terminal, can_transition,
}
use godeepwiki.Model.Task.Lifecycle.{same_state_eq, same_state_sym, can_transition-cancelled}
use godeepwiki.Store.Table.{
  Row, Table, find_row, update_where, state_of, has_id, find_row-update_where, find_row-insert,
  find_row-id,
}
use godeepwiki.Store.Ops.{
  check_patch, apply_patch, update_locked, value_or, create, update_state, set_cancel_flag,
  reset_to_pending, fail_task, claim_pending, reset_stale_running,
}

-- A call that writes, with the outcome of the database and the time.
pub data StoreOp : Type 0 where
  creates : Bool → ℕ → Task → StoreOp
  updates : Bool → Bool → ℕ → String → TaskPatch → StoreOp
  flags : Bool → ℕ → String → StoreOp
  resets : Bool → ℕ → String → StoreOp
  fails : Bool → ℕ → String → TaskError → StoreOp
  claims : Bool → ℕ → String → TaskState → StoreOp
  unstales : Bool → ℕ → ℕ → StoreOp

unfoldable pub apply_op : StoreOp → Table → Table
apply_op (creates db_ok now t) table = (create db_ok now t table).1
apply_op (updates r w now id patch) table = (update_state r w now id patch table).1
apply_op (flags db_ok now id) table = (set_cancel_flag db_ok now id table).1
apply_op (resets db_ok now id) table = (reset_to_pending db_ok now id table).1
apply_op (fails db_ok now id e) table = (fail_task db_ok now id e table).1
apply_op (claims db_ok now id to) table = (claim_pending db_ok now id to table).1
apply_op (unstales db_ok now before) table = (reset_stale_running db_ok now before table).1

unfoldable pub run_ops : List StoreOp → Table → Table
run_ops [] table = table
run_ops (op ∷ ops) table = run_ops ops (apply_op op table)

-- What one operation may do to the state of a task.
pub data StateMove (s : TaskState) : TaskState → Type 0 where
  keep : StateMove s s
  legal : {t : TaskState} → can_transition s t ≡ true → StateMove s t
  requeue : is_terminal s ≡ false → StateMove s pending
  give_up : is_terminal s ≡ false → StateMove s failed

abbrev pub MovesTo : TaskState → Option TaskState → Type 0
MovesTo s o = (t : TaskState) × (o ≡ some t) × StateMove s t

update_where-MovesTo :
    (id : String) (p : Row → Bool) (f : Row → Row) (table : Table) (r : Row)
    → ((x : Row) → (f x).task.task_id ≡ x.task.task_id)
    → find_row id table ≡ some r
    → (p r ≡ true → StateMove r.task.state (f r).task.state)
    → MovesTo r.task.state (state_of id (update_where p f table))
update_where-MovesTo id p f table r k e m = elim (Bool-cases (p r)) [
  | inl hit ↦ ((f r).task.state, rw (find_row-update_where id p f table k, e, hit), m hit)
  | inr miss ↦ (r.task.state, rw (find_row-update_where id p f table k, e, miss), keep)
]

-- An UPDATE that leaves the state alone.
same_state-MovesTo :
    (id : String) (table table' : Table) (r : Row)
    → find_row id table ≡ some r
    → table' ≡ table
    → MovesTo r.task.state (state_of id table')
same_state-MovesTo id table table' r e q = (r.task.state, rw (q, e), keep)

patch-StateMove :
    (s : TaskState) (o : Option TaskState) (patch p : TaskPatch) (now : ℕ)
    → check_patch s o patch now ≡ ok p
    → patch.state ≡ o
    → StateMove s (value_or p.state s)
unfolding check_patch
patch-StateMove s none patch p now h e =
    let q : value_or p.state s ≡ s = ground arith in subst (StateMove s) (sym q) keep
patch-StateMove s (some to) patch p now h e =
    let q : value_or p.state s ≡ to = ground arith in
    subst (StateMove s) (sym q) (elim (Bool-cases (same_state s to)) [
      | inl same ↦ subst (StateMove s) (same_state_eq s to same) keep
      | inr moved ↦ legal (ground (arith, same_state_sym s to))
    ])

create-MovesTo :
    (db_ok : Bool) (now : ℕ) (t : Task) (id : String) (table : Table) (r : Row)
    → find_row id table ≡ some r
    → MovesTo r.task.state (state_of id (create db_ok now t table).1)
unfolding create
create-MovesTo db_ok now t id table r e =
    elim (Bool-cases (db_ok && not (is_some (find_row t.task_id table)))) [
      | inl go ↦ (r.task.state, rw (go, create) (rw (find_row-insert, e)), keep)
      | inr kept ↦ (r.task.state, rw (kept, create) (rw e), keep)
    ]

-- Where the statement is refused nothing moves.
refused-MovesTo :
    (id : String) (table : Table) (r : Row)
    → find_row id table ≡ some r
    → MovesTo r.task.state (state_of id table)
refused-MovesTo id table r e = (r.task.state, rw e, keep)

-- An UPDATE by the key whose row has the patch's checks behind it.
patched-MovesTo :
    (key id : String) (table : Table) (k r : Row) (patch p : TaskPatch) (now now' : ℕ)
    → find_row key table ≡ some k
    → find_row id table ≡ some r
    → check_patch k.task.state patch.state patch now ≡ ok p
    → MovesTo r.task.state (state_of id (update_where (has_id key) (apply_patch p now') table))
unfolding apply_patch
patched-MovesTo key id table k r patch p now now' ek er c =
    update_where-MovesTo id (has_id key) (apply_patch p now') table r (λ x. refl) er
      λ hit.
        let same_key : key ≡ id =
          sym ((eq_iff r.task.task_id key).0 hit) ∙ find_row-id id table r er in
        let same_row : k ≡ r = cc (ek, er, same_key) in
        subst (λ x. StateMove x.task.state (value_or p.state x.task.state)) same_row
          (patch-StateMove k.task.state patch.state patch p now c refl)

update_locked-MovesTo :
    (writes_ok : Bool) (now : ℕ) (key id : String) (patch : TaskPatch) (table : Table) (k r : Row)
    → find_row key table ≡ some k
    → find_row id table ≡ some r
    → MovesTo r.task.state (state_of id (update_locked writes_ok now key patch table (some k)).1)
unfolding update_locked
update_locked-MovesTo writes_ok now key id patch table k r ek er =
    elim (Result-cases (check_patch k.task.state patch.state patch now)) [
      | inl (p, c) ↦ elim (Bool-cases writes_ok) [
        | inl wrote ↦
            rw (c, update_locked)
              (rw wrote (patched-MovesTo key id table k r patch p now now ek er c))
        | inr kept ↦ rw (c, update_locked) (rw kept (refused-MovesTo id table r er))
      ]
      | inr (x, c) ↦ rw (c, update_locked) (refused-MovesTo id table r er)
    ]

update-MovesTo :
    (reads_ok writes_ok : Bool) (now : ℕ) (key : String) (patch : TaskPatch) (id : String)
    (table : Table) (r : Row)
    → find_row id table ≡ some r
    → MovesTo r.task.state (state_of id (update_state reads_ok writes_ok now key patch table).1)
unfolding update_state
update-MovesTo false writes_ok now key patch id table r e = refused-MovesTo id table r e
update-MovesTo true writes_ok now key patch id table r e =
    elim (Option-cases (find_row key table)) [
      | inl missing ↦ rw (missing, update_state) (refused-MovesTo id table r e)
      | inr (k, found) ↦
          rw (found, update_state)
            (update_locked-MovesTo writes_ok now key id patch table k r found e)
    ]

live-StateMove :
    {t : TaskState} (s : TaskState) (a b : Bool)
    → (is_terminal s ≡ false → StateMove s t)
    → (a && (not (is_terminal s) && b)) ≡ true
    → StateMove s t
live-StateMove s a b m h = m (ground arith)

claim-MovesTo :
    (db_ok : Bool) (now : ℕ) (key : String) (to : TaskState) (id : String) (table : Table) (r : Row)
    → find_row id table ≡ some r
    → MovesTo r.task.state (state_of id (claim_pending db_ok now key to table).1)
unfolding claim_pending
claim-MovesTo db_ok now key to id table r e = elim (Bool-cases (can_transition pending to)) [
  | inr bad ↦ rw (bad, claim_pending) (refused-MovesTo id table r e)
  | inl fine ↦ elim (Bool-cases db_ok) [
    | inr down ↦ rw (fine, down, claim_pending) (refused-MovesTo id table r e)
    | inl up ↦
        rw (fine, up, claim_pending)
          (update_where-MovesTo id _ _ table r (λ x. refl) e
            λ hit. legal (
              subst (λ x. can_transition x to ≡ true)
                (sym (same_state_eq r.task.state pending (ground arith))) fine))
  ]
]

-- Each operation keeps the state of a task, moves it by the transition table, or puts a task that
-- is not terminal back to `pending` or to `failed`.
pub apply_op-MovesTo :
    (op : StoreOp) (id : String) (table : Table) (r : Row)
    → find_row id table ≡ some r
    → MovesTo r.task.state (state_of id (apply_op op table))
unfolding apply_op set_cancel_flag reset_to_pending fail_task reset_stale_running
apply_op-MovesTo (creates db_ok now t) id table r e = create-MovesTo db_ok now t id table r e
apply_op-MovesTo (updates a b now key patch) id table r e =
    update-MovesTo a b now key patch id table r e
apply_op-MovesTo (flags false now key) id table r e = refused-MovesTo id table r e
apply_op-MovesTo (flags true now key) id table r e =
    update_where-MovesTo id _ _ table r (λ x. refl) e (λ hit. keep)
apply_op-MovesTo (resets false now key) id table r e = refused-MovesTo id table r e
apply_op-MovesTo (resets true now key) id table r e =
    update_where-MovesTo id _ _ table r (λ x. refl) e (λ hit. requeue (ground arith))
apply_op-MovesTo (fails false now key x) id table r e = refused-MovesTo id table r e
apply_op-MovesTo (fails true now key x) id table r e =
    update_where-MovesTo id _ _ table r (λ x. refl) e (λ hit. give_up (ground arith))
apply_op-MovesTo (claims db_ok now key to) id table r e =
    claim-MovesTo db_ok now key to id table r e
apply_op-MovesTo (unstales false now before) id table r e = refused-MovesTo id table r e
apply_op-MovesTo (unstales true now before) id table r e =
    update_where-MovesTo id _ _ table r (λ x. refl) e (λ hit. requeue (ground arith))

-- `state_of` form, for a chain of operations.
apply_op-state_of :
    (op : StoreOp) (id : String) (table : Table) (s : TaskState)
    → state_of id table ≡ some s
    → MovesTo s (state_of id (apply_op op table))
apply_op-state_of op id table s e = elim (Option-cases (find_row id table)) [
  | inl missing ↦ absurd (ground arith)
  | inr (r, found) ↦
      let q : r.task.state ≡ s = ground arith in
      subst (λ x. MovesTo x (state_of id (apply_op op table))) q
        (apply_op-MovesTo op id table r found)
]

StateMove-terminal : {s t : TaskState} → StateMove s t → is_terminal s ≡ true → t ≡ s
StateMove-terminal keep h = refl
StateMove-terminal {s} {t} (legal l) h = absurd (ground (arith, (can_transition-cancelled s).1 t h))
StateMove-terminal (requeue l) h = absurd (ground arith)
StateMove-terminal (give_up l) h = absurd (ground arith)

-- Once a task is completed, failed or cancelled, no sequence of operations changes its state.
pub terminal_absorbs :
    (ops : List StoreOp) (id : String) (table : Table) (s : TaskState)
    → state_of id table ≡ some s
    → is_terminal s ≡ true
    → state_of id (run_ops ops table) ≡ some s
unfolding run_ops
terminal_absorbs [] id table s e h = e
terminal_absorbs (op ∷ ops) id table s e h =
    let (t, e', m) = apply_op-state_of op id table s e in
    terminal_absorbs ops id (apply_op op table) s (e' ∙ ap some (StateMove-terminal m h)) h
