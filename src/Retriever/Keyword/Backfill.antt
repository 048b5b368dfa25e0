-- ===== src/Retriever/Keyword/Backfill.antt =====
-- What the backfill of keyword.go returns: each parent block once, at its best hit.
use godeepwiki.Common.{
  ℕ, suc, ◌≡◌, refl, sym, ap, ◌∙◌, subst, inl, inr, Bool, true, false, String, List, [], ◌∷◌,
  Option, none, some, arith, Bool-cases, Option-cases, if◌then◌else◌, count_if, eq_iff, str_eq,
}
use godeepwiki.Common.Dict.{lookup, insert, delete}
use godeepwiki.Model.Chunk.{Chunk}
use godeepwiki.Retriever.{ChunkHit}
use godeepwiki.Retriever.Keyword.{IndexHit, is_in, by_id, parent_of, emit}

-- A map from identifiers has each chunk under its own.
abbrev pub IsIndex : List (String × Chunk) → Type 0
IsIndex [] = Unit {0}
IsIndex ((key, c) ∷ rest) = (c.chunk_id ≡ key) × IsIndex rest

delete-IsIndex : (key : String) (m : List (String × Chunk)) → IsIndex m → IsIndex (delete key m)
unfolding delete
delete-IsIndex key [] w = tt
delete-IsIndex key ((name, c) ∷ rest) (own, w) = elim (Bool-cases (str_eq name key)) [
  | inl hit ↦ rw hit (delete-IsIndex key rest w)
  | inr miss ↦ rw miss (own, delete-IsIndex key rest w)
]

pub by_id-IsIndex : (cs : List Chunk) (m : List (String × Chunk)) → IsIndex m → IsIndex (by_id cs m)
unfolding by_id insert
by_id-IsIndex [] m w = w
by_id-IsIndex (c ∷ cs) m w =
    by_id-IsIndex cs (insert c.chunk_id c m) (refl, delete-IsIndex c.chunk_id m w)

lookup-IsIndex :
    (key : String) (m : List (String × Chunk)) (c : Chunk)
    → IsIndex m
    → lookup key m ≡ some c
    → c.chunk_id ≡ key
unfolding lookup
lookup-IsIndex key [] c w e = absurd (ground arith)
lookup-IsIndex key ((name, x) ∷ rest) c (own, w) e = elim (Bool-cases (str_eq name key)) [
  | inl hit ↦ ground (arith, eq_iff name key)
  | inr miss ↦ lookup-IsIndex key rest c w (ground arith)
]

module _ {S : Type 0} (children parents : List (String × Chunk)) where
  -- The hit stands for the parent block `id`.
  abbrev pub stands_for : String → IndexHit S → Bool
  stands_for id h = elim (parent_of children parents h) [
    | none ↦ false
    | some (key, p) ↦ str_eq key id
  ]

  -- The score of the first hit that stands for the parent block.
  abbrev pub first_score : String → List (IndexHit S) → Option S
  first_score id [] = none
  first_score id (h ∷ hs) =
      let rest = first_score id hs in if stands_for id h then some h.score else rest

  abbrev pub is_chunk : String → ChunkHit S → Bool
  is_chunk id h = str_eq h.chunk.chunk_id id

  -- The score of the first result that is the block `id`.
  abbrev pub score_of : String → List (ChunkHit S) → Option S
  score_of id [] = none
  score_of id (h ∷ hs) = let rest = score_of id hs in if is_chunk id h then some h.score else rest

  parent_of-IsIndex :
      (h : IndexHit S) (id : String) (p : Chunk)
      → IsIndex parents
      → parent_of children parents h ≡ some (id, p)
      → p.chunk_id ≡ id
  unfolding parent_of
  parent_of-IsIndex h id p w e = elim (Option-cases (lookup h.chunk_id children)) [
    | inl none_there ↦ absurd (ground (arith, none_there))
    | inr (c, found) ↦ elim (Option-cases (lookup c.parent_chunk_id parents)) [
      | inl none_there ↦ absurd (ground (arith, found, none_there))
      | inr (q, there) ↦
          let own : q.chunk_id ≡ c.parent_chunk_id =
            lookup-IsIndex c.parent_chunk_id parents q w there in
          ground (arith, found, there, own)
    ]
  ]

  abbrev pub one_if : Option S → ℕ
  one_if none = 0
  one_if (some s) = 1

  due_old :
      (id key : String) (emitted : List String) (sc : S) (first : Option S)
      → is_in key emitted ≡ true
      → (if is_in id emitted then none else if str_eq key id then some sc else first)
        ≡ (if is_in id emitted then none else first)
  due_old id key emitted sc first old = elim (Bool-cases (str_eq key id)) [
    | inl hit ↦
        let here : is_in id emitted ≡ true =
          subst (λ k. is_in k emitted ≡ true) ((eq_iff key id).0 hit) old in
        rw here refl
    | inr miss ↦ rw miss refl
  ]

  due_new :
      (id key : String) (emitted : List String) (sc : S) (first o : Option S) (n : ℕ)
      → is_in key emitted ≡ false
      → o ≡ (if is_in id (key ∷ emitted) then none else first)
      → n ≡ one_if (if is_in id (key ∷ emitted) then none else first)
      → let due = if is_in id emitted then none else if str_eq key id then some sc else first in
        ((if str_eq key id then some sc else o) ≡ due)
        × ((if str_eq key id then suc n else n) ≡ one_if due)
  due_new id key emitted sc first o n new a b = elim (Bool-cases (str_eq key id)) [
    | inl hit ↦
        let same : key ≡ id = (eq_iff key id).0 hit in
        let away : is_in id emitted ≡ false = subst (λ k. is_in k emitted ≡ false) same new in
        let here : str_eq id key ≡ true = (eq_iff id key).1 (sym same) in
        let none_more : n ≡ 0 = b ∙ rw here refl in rw (hit, away) (refl, ap suc none_more)
    | inr miss ↦
        let apart : str_eq id key ≡ false = ground (arith, eq_iff id key, eq_iff key id) in
        rw miss (a ∙ rw apart refl, b ∙ rw apart refl)
  ]

  -- What stands in the results for `id`, while the identifiers of `emitted` are left out.
  abbrev Emitted : String → List (IndexHit S) → List String → List (ChunkHit S) → Type 0
  Emitted id hs emitted out =
      let due = if is_in id emitted then none else first_score id hs in
      (score_of id out ≡ due) × (count_if (is_chunk id) out ≡ one_if due)

  emit_from :
      (id : String) (hs : List (IndexHit S)) (emitted : List String)
      → IsIndex parents
      → Emitted id hs emitted (emit children parents hs emitted)
  unfolding emit
  emit_from id [] emitted w = (ground arith, ground arith)
  emit_from id (h ∷ hs) emitted w = elim (Option-cases (parent_of children parents h)) [
    | inl e ↦
        let miss : stands_for id h ≡ false = rw (e, stands_for) refl in
        rw miss (rw (e, emit) (emit_from id hs emitted w))
    | inr ((key, p), e) ↦
        let stands : stands_for id h ≡ str_eq key id = rw (e, stands_for) refl in
        let own : p.chunk_id ≡ key = parent_of-IsIndex h key p w e in
        let (score, count) = emit_from id hs (key ∷ emitted) w in
        let (score', count') = emit_from id hs emitted w in
        elim (Bool-cases (is_in key emitted)) [
          | inl old ↦ rw stands (
              rw (e, emit)
                (rw (old, emit)
                  (rw (due_old id key emitted h.score (first_score id hs) old) (score', count'))))
          | inr new ↦ rw stands (
              rw (e, emit)
                (rw (new, emit)
                  (rw own
                    (due_new id key emitted h.score (first_score id hs) _ _ new score count))))
        ]
  ]

module _ {S : Type 0} (children : List (String × Chunk)) (found : List Chunk) where
  -- The backfill of keyword search, with the parents that the store found. A parent block that some
  -- hit stands for is in the result exactly once, with the score of its first hit, and no other block
  -- is in the result.
  pub emit_lem :
      (id : String) (hs : List (IndexHit S))
      → let parents = by_id found [] in
        (score_of children parents id (emit children parents hs [])
          ≡ first_score children parents id hs)
        × (count_if (is_chunk children parents id) (emit children parents hs [])
            ≡ one_if children parents (first_score children parents id hs))
  emit_lem id hs = emit_from children (by_id found []) id hs [] (by_id-IsIndex found [] tt)
