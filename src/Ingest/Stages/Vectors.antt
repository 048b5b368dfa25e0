-- ===== src/Ingest/Stages/Vectors.antt =====
-- The embedding stage (deepwiki/internal/ingest/pipeline.go): which block gets which vector.
use godeepwiki.Common.{
  ℕ, suc, ◌≡◌, refl, ap, ◌∙◌, true, false, String, List, [], ◌∷◌, map, str_eq, Result, ok, err,
  if◌then◌else◌, length, ◌==◌, ==_iff, Bool-cases, inl, inr, ◌⊎◌, arith,
}
use godeepwiki.Model.Chunk.{Chunk}
use godeepwiki.Model.Errors.{Error}
use godeepwiki.Ingest.Stages.{
  StageEnv, Work, child_indexes, child_texts, set_vector, set_vectors, embed_stage, embedded,
}

-- The vectors in their order, one for each child block; a parent block stays as it is.
abbrev pub attach : String → List Chunk → List (List ℕ) → List Chunk
attach name [] vs = []
attach name (c ∷ cs) [] = c ∷ cs
attach name (c ∷ cs) (v ∷ vs) =
    if str_eq c.parent_chunk_id ""
    then c ∷ attach name cs (v ∷ vs)
    else record c { vector = v; embedding_model = name } ∷ attach name cs vs

child_indexes-suc :
    (i : ℕ) (cs : List Chunk) → child_indexes (suc i) cs ≡ map suc (child_indexes i cs)
unfolding child_indexes
child_indexes-suc i [] = refl
child_indexes-suc i (c ∷ cs) = ground (arith, child_indexes-suc (suc i) cs)

set_vectors-suc :
    (is : List ℕ) (vs : List (List ℕ)) (name : String) (c : Chunk) (cs : List Chunk)
    → set_vectors (map suc is) vs name (c ∷ cs) ≡ c ∷ set_vectors is vs name cs
unfolding set_vectors
set_vectors-suc [] vs name c cs = refl
set_vectors-suc (i ∷ is) [] name c cs = refl
set_vectors-suc (i ∷ is) (v ∷ vs) name c cs = set_vectors-suc is vs name c (set_vector i v name cs)

set_vectors-nil : (is : List ℕ) (name : String) (cs : List Chunk) → set_vectors is [] name cs ≡ cs
unfolding set_vectors
set_vectors-nil [] name cs = refl
set_vectors-nil (i ∷ is) name cs = refl

child_indexes-parent :
    (c : Chunk) (cs : List Chunk)
    → str_eq c.parent_chunk_id "" ≡ true
    → child_indexes 0 (c ∷ cs) ≡ map suc (child_indexes 0 cs)
unfolding child_indexes
child_indexes-parent c cs parent = ground (arith, child_indexes-suc 0 cs)

child_indexes-child :
    (c : Chunk) (cs : List Chunk)
    → str_eq c.parent_chunk_id "" ≡ false
    → child_indexes 0 (c ∷ cs) ≡ 0 ∷ map suc (child_indexes 0 cs)
unfolding child_indexes
child_indexes-child c cs child = ground (arith, child_indexes-suc 0 cs)

abbrev embed_into : List ℕ → String → Chunk → Chunk
embed_into v name c = record c { vector = v; embedding_model = name }

set_vectors-first :
    (is : List ℕ) (v : List ℕ) (vs : List (List ℕ)) (name : String) (c : Chunk) (cs : List Chunk)
    → set_vectors (0 ∷ map suc is) (v ∷ vs) name (c ∷ cs)
      ≡ embed_into v name c ∷ set_vectors is vs name cs
unfolding set_vectors set_vector
set_vectors-first is v vs name c cs = set_vectors-suc is vs name (embed_into v name c) cs

set_vectors-none :
    (vs : List (List ℕ)) (name : String) → set_vectors (child_indexes 0 []) vs name [] ≡ []
unfolding set_vectors child_indexes
set_vectors-none vs name = refl

-- The loop over the indexes of the child blocks gives each its vector in one walk.
set_vectors-attach :
    (name : String) (cs : List Chunk) (vs : List (List ℕ))
    → set_vectors (child_indexes 0 cs) vs name cs ≡ attach name cs vs
set_vectors-attach name [] vs = set_vectors-none vs name
set_vectors-attach name (c ∷ cs) [] = set_vectors-nil (child_indexes 0 (c ∷ cs)) name (c ∷ cs)
set_vectors-attach name (c ∷ cs) (v ∷ vs) = elim (Bool-cases (str_eq c.parent_chunk_id "")) [
  | inl parent ↦ rw parent (
      ap (λ is. set_vectors is (v ∷ vs) name (c ∷ cs)) (child_indexes-parent c cs parent)
      ∙ set_vectors-suc (child_indexes 0 cs) (v ∷ vs) name c cs
      ∙ ap (◌∷◌ c) (set_vectors-attach name cs (v ∷ vs)))
  | inr child ↦ rw child (
      ap (λ is. set_vectors is (v ∷ vs) name (c ∷ cs)) (child_indexes-child c cs child)
      ∙ set_vectors-first (child_indexes 0 cs) v vs name c cs
      ∙ ap (◌∷◌ (embed_into v name c)) (set_vectors-attach name cs vs))
]

no_texts {ℓ} : {A : Type ℓ} (xs : List A) → (length xs == 0) ≡ true → xs ≡ []
no_texts [] h = refl
no_texts (x ∷ xs) h = absurd (ground arith)

-- What the embedding stage has done: without a child block nothing; else each child block has its
-- vector, in order, with the model's name, and all else is as before.
abbrev pub Embeds : StageEnv → Work → Result Error (Unit {0}) × Work → Type 0
Embeds env w (ok _, w') =
    ((child_texts w.chunks ≡ []) × (w' ≡ w))
    ⊎ ((vectors : List (List ℕ)) × (env.embed (child_texts w.chunks) ≡ ok vectors)
        × (length vectors ≡ length (child_texts w.chunks))
        × (w' ≡ record w { chunks = attach env.model_name w.chunks vectors }))
Embeds env w (err e, w') = w' ≡ w

embedded-Embeds :
    (env : StageEnv) (w : Work) (answer : Result Error (List (List ℕ)))
    → env.embed (child_texts w.chunks) ≡ answer
    → Embeds env w (embedded env answer w)
unfolding embedded
embedded-Embeds env w (err e) asked = refl
embedded-Embeds env w (ok vectors) asked =
    elim (Bool-cases (length vectors == length (child_texts w.chunks))) [
      | inl same ↦ rw same (
          inr (
            vectors,
            asked,
            (==_iff _ _).0 same,
            ap (λ cs. record w { chunks = cs })
                (set_vectors-attach env.model_name w.chunks vectors),
          ))
      | inr other ↦ rw other refl
    ]

-- Whatever the embedder answers: if the stage succeeds, every child block has got the vector of its
-- own text, the parents none, and nothing else has changed; if it fails (the embedder does, or
-- returns another number of vectors than it was given texts), nothing has changed at all.
pub embed_stage-Embeds : (env : StageEnv) (w : Work) → Embeds env w (embed_stage env w)
unfolding embed_stage
embed_stage-Embeds env w = elim (Bool-cases (length (child_texts w.chunks) == 0)) [
  | inl none_there ↦ rw none_there (inl (no_texts (child_texts w.chunks) none_there, refl))
  | inr some_there ↦ rw some_there (embedded-Embeds env w (env.embed (child_texts w.chunks)) refl)
]
