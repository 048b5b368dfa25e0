-- ===== src/Store/Keys.antt =====
-- The primary key of the `tasks` table: unique keys, and what they give for UPDATE by key.
use godeepwiki.Common.{
  ◌≡◌, subst, refl, sym, inl, inr, Bool, true, ◌&&◌, [], ◌∷◌, ◌++◌, none, some, String, arith,
  eq_iff, Bool-cases, if◌then◌else◌, All,
}
use godeepwiki.Store.Table.{
  Row, Table, find_row, update_where, affected, KeepsId, has_id, find_row-update_where,
  find_row-insert, find_row-id,
}

-- No key stands twice.
abbrev pub Unique : Table → Type 0
Unique [] = Unit {0}
Unique (r ∷ rs) = (find_row r.task.task_id rs ≡ none) × Unique rs

pub update_where-Unique :
    (p : Row → Bool) (f : Row → Row) (t : Table)
    → KeepsId f
    → Unique t
    → Unique (update_where p f t)
unfolding update_where
update_where-Unique p f [] k u = tt
update_where-Unique p f (r ∷ rs) k u = (
  ground (arith, k r, find_row-update_where r.task.task_id p f rs k, u.0),
  update_where-Unique p f rs k u.1,
)

pub insert-Unique :
    (r : Row) (t : Table) → find_row r.task.task_id t ≡ none → Unique t → Unique (t ++ r ∷ [])
unfolding find_row
insert-Unique r [] h u = (refl, tt)
insert-Unique r (x ∷ t) h u = (
  ground (
    arith,
    u.0,
    find_row-insert x.task.task_id r t,
    eq_iff r.task.task_id x.task.task_id,
    eq_iff x.task.task_id r.task.task_id,
  ),
  insert-Unique r t (ground arith) u.1,
)

pub has_id-find_row :
    (id : String) (t : Table) (r : Row) → find_row id t ≡ some r → has_id id r ≡ true
has_id-find_row id t r e = (eq_iff r.task.task_id id).1 (find_row-id id t r e)

-- How many rows an UPDATE by key and a further condition touches.
pub affected-find_row :
    (id : String) (q : Row → Bool) (t : Table)
    → Unique t
    → affected (λ r. has_id id r && q r) t
      ≡ elim (find_row id t) [ none ↦ 0 | some r ↦ if q r then 1 else 0 ]
unfolding find_row
affected-find_row id q [] u = refl
affected-find_row id q (x ∷ t) u = elim (Bool-cases (has_id id x)) [
  | inl hit ↦ ground (arith, affected-find_row id q t u.1, u.0, (eq_iff x.task.task_id id).0 hit)
  | inr miss ↦ ground (arith, affected-find_row id q t u.1, miss)
]

-- An UPDATE by a key that is not there changes nothing.
pub update_where-missing :
    (id : String) (f : Row → Row) (t : Table)
    → find_row id t ≡ none
    → update_where (has_id id) f t ≡ t
unfolding find_row update_where
update_where-missing id f [] h = refl
update_where-missing id f (x ∷ t) h = ground (arith, update_where-missing id f t)

module _ (P : Row → Type 0) where
  -- A condition on every row survives an UPDATE that keeps it where it writes.
  pub update_where-All :
      (p : Row → Bool) (f : Row → Row) (t : Table)
      → ((r : Row) → p r ≡ true → P r → P (f r))
      → All P t
      → All P (update_where p f t)
  unfolding update_where
  update_where-All p f [] keep h = tt
  update_where-All p f (r ∷ rs) keep h = elim (Bool-cases (p r)) [
    | inl hit ↦ rw hit (keep r hit h.0, update_where-All p f rs keep h.1)
    | inr miss ↦ rw miss (h.0, update_where-All p f rs keep h.1)
  ]

  pub append-All : (r : Row) (t : Table) → All P t → P r → All P (t ++ r ∷ [])
  append-All r [] h p = (p, tt)
  append-All r (x ∷ t) h p = (h.0, append-All r t h.1 p)

  pub find_row-All : (id : String) (t : Table) (r : Row) → find_row id t ≡ some r → All P t → P r
  unfolding find_row
  find_row-All id [] r e h = absurd (ground arith)
  find_row-All id (x ∷ t) r e h = elim (Bool-cases (has_id id x)) [
    | inl hit ↦ let q : x ≡ r = ground arith in subst P q h.0
    | inr miss ↦ find_row-All id t r (ground arith) h.1
  ]

  -- An UPDATE by key writes the row that the lookup finds, and no other.
  pub update_key-All :
      (id : String) (f : Row → Row) (t : Table) (k : Row)
      → Unique t
      → find_row id t ≡ some k
      → (P k → P (f k))
      → All P t
      → All P (update_where (has_id id) f t)
  unfolding find_row update_where
  update_key-All id f [] k u e keep h = tt
  update_key-All id f (x ∷ t) k u e keep h = elim (Bool-cases (has_id id x)) [
    | inl hit ↦
        let same : x ≡ k = ground arith in
        let same_id : x.task.task_id ≡ id = (eq_iff x.task.task_id id).0 hit in
        let free : find_row id t ≡ none = subst (λ i. find_row i t ≡ none) same_id u.0 in
        rw (hit, update_where-missing id f t free)
          (subst (λ y. P y → P (f y)) (sym same) keep h.0, h.1)
    | inr miss ↦ rw miss (h.0, update_key-All id f t k u.1 (ground arith) keep h.1)
  ]
