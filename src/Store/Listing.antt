-- ===== src/Store/Listing.antt =====
-- The SELECTs of task/store.go: ordering, filtering and paging.
use mathlib.Core.List.{Perm}
use mathlib.Core.List.Perm
use godeepwiki.Common.{
  ℕ, zero, suc, ◌+◌, ◌-◌, ◌*◌, ◌≤◌, ◌≡◌, refl, ap, ◌∙◌, inl, inr, Bool, true, false, List, [], ◌∷◌,
  ◌++◌, arith, Bool-cases, Result, ok, err, take, drop, length, length-take, take_all,
}
use godeepwiki.Model.Task.{Task, TaskFilter}
use godeepwiki.Store.Table.{Table}
use godeepwiki.Store.Ops.{
  insert_by, order_by, older_first, newer_first, tasks_where, is_live, find_interrupted,
  build_where, page_of, page_size_of, list,
}

insert_by-perm :
    (before : Task → Task → Bool) (t : Task) (ts : List Task)
    → Perm (insert_by before t ts) (t ∷ ts)
unfolding insert_by
insert_by-perm before t [] = Perm.refl (t ∷ [])
insert_by-perm before t (u ∷ us) = elim (Bool-cases (before t u)) [
  | inl first ↦ rw first (Perm.refl (t ∷ u ∷ us))
  | inr later ↦ rw later (Perm.trans (Perm.cons u (insert_by-perm before t us)) (Perm.swap t u us))
]

pub order_by-perm : (before : Task → Task → Bool) (ts : List Task) → Perm (order_by before ts) ts
unfolding order_by
order_by-perm before [] = Perm.nil
order_by-perm before (t ∷ ts) =
    Perm.trans (insert_by-perm before t (order_by before ts))
      (Perm.cons t (order_by-perm before ts))

-- The first task of a list may stand after `t`.
abbrev pub Before : (Task → Task → Bool) → Task → List Task → Type 0
Before before t [] = Unit {0}
Before before t (u ∷ us) = before t u ≡ true

-- Each task may stand before the next one.
abbrev pub IsOrdered : (Task → Task → Bool) → List Task → Type 0
IsOrdered before [] = Unit {0}
IsOrdered before (t ∷ ts) = Before before t ts × IsOrdered before ts

abbrev IsTotal : (Task → Task → Bool) → Type 0
IsTotal before = (t u : Task) → before t u ≡ false → before u t ≡ true

insert_by-Before :
    (before : Task → Task → Bool) (u t : Task) (ts : List Task)
    → before u t ≡ true
    → Before before u ts
    → Before before u (insert_by before t ts)
unfolding insert_by
insert_by-Before before u t [] h b = h
insert_by-Before before u t (v ∷ vs) h b = ground arith

insert_by-IsOrdered :
    (before : Task → Task → Bool) (t : Task) (ts : List Task)
    → IsTotal before
    → IsOrdered before ts
    → IsOrdered before (insert_by before t ts)
unfolding insert_by
insert_by-IsOrdered before t [] total o = (tt, tt)
insert_by-IsOrdered before t (u ∷ us) total o = elim (Bool-cases (before t u)) [
  | inl first ↦ rw first (first, o)
  | inr later ↦ rw later (
    insert_by-Before before u t us (total t u later) o.0,
    insert_by-IsOrdered before t us total o.1,
  )
]

pub order_by-IsOrdered :
    (before : Task → Task → Bool) (ts : List Task)
    → IsTotal before
    → IsOrdered before (order_by before ts)
unfolding order_by
order_by-IsOrdered before [] total = tt
order_by-IsOrdered before (t ∷ ts) total =
    insert_by-IsOrdered before t (order_by before ts) total (order_by-IsOrdered before ts total)

older_first-IsTotal : IsTotal older_first
older_first-IsTotal t u h = ground arith

newer_first-IsTotal : IsTotal newer_first
newer_first-IsTotal t u h = ground arith

-- The recovery query returns exactly the tasks that are not terminal, each as often as the table
-- has it, the oldest first.
pub find_interrupted_lem :
    (table : Table) (ts : List Task)
    → find_interrupted true table ≡ ok ts
    → Perm ts (tasks_where is_live table) × IsOrdered older_first ts
unfolding find_interrupted
find_interrupted_lem table ts h =
    let q : order_by older_first (tasks_where is_live table) ≡ ts = cc in
    rw (← q) (
      order_by-perm older_first (tasks_where is_live table),
      order_by-IsOrdered older_first (tasks_where is_live table) older_first-IsTotal,
    )

take-append-take : (a b : ℕ) (xs : List Task) → take a xs ++ take b (drop a xs) ≡ take (a + b) xs
take-append-take zero b xs = let q : zero + b ≡ b = omega arith in rw q
take-append-take (suc a) zero [] = let q : suc a + zero ≡ suc a = omega arith in rw q
take-append-take (suc a) (suc b) [] = let q : suc a + suc b ≡ suc (a + suc b) = omega arith in rw q
take-append-take (suc a) b (x ∷ xs) =
    let q : suc a + b ≡ suc (a + b) = omega arith in rw q (ap (◌∷◌ x) (take-append-take a b xs))

page_of-pred : (n : ℕ) → page_of (suc n) - 1 ≡ n
unfolding page_of
page_of-pred n = ground arith

page_size_of-le : (n : ℕ) → page_size_of n ≤ 100
unfolding page_size_of
page_size_of-le n = ground arith

length-insert_by :
    (before : Task → Task → Bool) (t : Task) (ts : List Task)
    → length (insert_by before t ts) ≡ suc (length ts)
unfolding insert_by
length-insert_by before t [] = refl
length-insert_by before t (u ∷ us) = ground (arith, length-insert_by before t us)

length-order_by :
    (before : Task → Task → Bool) (ts : List Task) → length (order_by before ts) ≡ length ts
unfolding order_by
length-order_by before [] = refl
length-order_by before (t ∷ ts) =
    length-insert_by before t (order_by before ts) ∙ ap suc (length-order_by before ts)

abbrev rows_of : Result godeepwiki.Model.Errors.Error (List Task × ℕ) → List Task
rows_of (ok (ts, total)) = ts
rows_of (err e) = []

-- The pages 1 to n of one query, one after the other.
pub pages : ℕ → TaskFilter → Table → List Task
pages zero f table = []
pages (suc n) f table = pages n f table ++ rows_of (list true (record f { page = suc n }) table)

abbrev pub matching : TaskFilter → Table → List Task
matching f table = tasks_where (build_where f) table

page-take :
    (n : ℕ) (f : TaskFilter) (table : Table)
    → pages n f table
      ≡ take (n * page_size_of f.page_size) (order_by newer_first (matching f table))
unfolding pages list
page-take zero f table = let q : 0 * page_size_of f.page_size ≡ 0 = omega arith in rw q
page-take (suc n) f table =
    let size = page_size_of f.page_size in
    let start : (page_of (suc n) - 1) * size ≡ n * size = ap (λ k. k * size) (page_of-pred n) in
    let total : n * size + size ≡ suc n * size = omega arith in
    rw (page-take n f table, start, ← total) (take-append-take (n * size) size _)

-- A page has at most 100 tasks, the total counts every match, and the pages up to one that covers
-- the total hold each match exactly as often as the table, the newest first.
pub list_lem :
    (f : TaskFilter) (table : Table) (n : ℕ)
    → length (matching f table) ≤ n * page_size_of f.page_size
    → ((ts : List Task) (total : ℕ)
        → list true f table ≡ ok (ts, total)
        → (length ts ≤ 100) × (total ≡ length (matching f table)))
      × Perm (pages n f table) (matching f table)
      × IsOrdered newer_first (pages n f table)
unfolding list
list_lem f table n h =
    let rows = matching f table in
    let all : pages n f table ≡ order_by newer_first rows =
      page-take n f table
      ∙ take_all (n * page_size_of f.page_size) (order_by newer_first rows)
          (rw (length-order_by newer_first rows) h) in
    (
      λ ts total e. ground (
        arith,
        page_size_of-le f.page_size,
        length-take (page_size_of f.page_size)
            (drop ((page_of f.page - 1) * page_size_of f.page_size) (order_by newer_first rows)),
      ),
      rw all (order_by-perm newer_first rows),
      rw all (order_by-IsOrdered newer_first rows newer_first-IsTotal),
    )
