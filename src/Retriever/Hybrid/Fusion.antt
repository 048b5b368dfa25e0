-- ===== src/Retriever/Hybrid/Fusion.antt =====
-- What the rank fusion of hybrid.go gives: each context of the hits once, and no other.
use godeepwiki.Common.{
  ℕ, zero, suc, ◌+◌, ◌≤◌, ◌<◌, ◌≡◌, refl, ap, ◌∙◌, inl, inr, Bool, true, false, ◌||◌, ◌&&◌, String,
  List, [], ◌∷◌, none, some, arith, Bool-cases, Option-cases, Result-cases, ok, err, if◌then◌else◌,
  ltb, leb, length, take, length-take, take_all, count_if, is_some, eq_iff, eq_refl, str_eq,
}
use godeepwiki.Common.Dict.{lookup, insert, delete, lookup-insert, lookup-delete}
use godeepwiki.Model.Chunk.{context_id}
use godeepwiki.Retriever.{ChunkHit, Scores, truncate_hits}
use godeepwiki.Retriever.Hybrid.{
  Merged, add_hit, add_hits, add_lists, weighed, ranks_before, insert_hit, sort_hits, rrf_fuse,
  Found, search,
}

bring : (a b m n : Bool) → n ≡ (b || m) → (a || n) ≡ ((b || a) || m)
bring a b m n e = ground arith

module _ {S : Type 0} where
  -- The hit belongs to this context.
  abbrev pub in_context : String → ChunkHit S → Bool
  in_context c h = str_eq (context_id h.chunk) c

  abbrev pub any_in : String → List (ChunkHit S) → Bool
  any_in c [] = false
  any_in c (h ∷ hs) = in_context c h || any_in c hs

  abbrev pub any_in_lists : String → List (List (ChunkHit S)) → Bool
  any_in_lists c [] = false
  any_in_lists c (hs ∷ rest) = any_in c hs || any_in_lists c rest

  -- The keys of the map are those of its hits, and none stands twice.
  abbrev pub IsKeyed : List (String × ChunkHit S) → Type 0
  IsKeyed [] = Unit {0}
  IsKeyed ((key, h) ∷ rest) = (context_id h.chunk ≡ key) × (lookup key rest ≡ none) × IsKeyed rest

  delete-IsKeyed :
      (key : String) (m : List (String × ChunkHit S)) → IsKeyed m → IsKeyed (delete key m)
  unfolding delete
  delete-IsKeyed key [] w = tt
  delete-IsKeyed key ((name, h) ∷ rest) (own, free, w) = elim (Bool-cases (str_eq name key)) [
    | inl hit ↦ rw hit (delete-IsKeyed key rest w)
    | inr miss ↦
        rw miss (own, ground (arith, lookup-delete key name rest, free), delete-IsKeyed key rest w)
  ]

  insert-IsKeyed :
      (key : String) (h : ChunkHit S) (m : List (String × ChunkHit S))
      → context_id h.chunk ≡ key
      → IsKeyed m
      → IsKeyed (insert key h m)
  unfolding insert
  insert-IsKeyed key h m own w =
      (own, ground (arith, lookup-delete key key m, eq_refl key), delete-IsKeyed key m w)

  lookup-IsKeyed :
      (key : String) (m : List (String × ChunkHit S)) (h : ChunkHit S)
      → IsKeyed m
      → lookup key m ≡ some h
      → context_id h.chunk ≡ key
  unfolding lookup
  lookup-IsKeyed key [] h w e = absurd (ground arith)
  lookup-IsKeyed key ((name, x) ∷ rest) h (own, free, w) e = elim (Bool-cases (str_eq name key)) [
    | inl hit ↦ ground (arith, eq_iff name key)
    | inr miss ↦ lookup-IsKeyed key rest h w (ground arith)
  ]

module _ {S : Type 0} (ops : Scores S) where
  -- The map after a step has each context that it had, and those of the new hits.
  abbrev Extends : Merged ops → (String → Bool) → Merged ops → Type 0
  Extends m new m' =
      IsKeyed m' × ((c : String) → is_some (lookup c m') ≡ (new c || is_some (lookup c m)))

  insert-Extends :
      (key : String) (h : ChunkHit S) (m : Merged ops)
      → context_id h.chunk ≡ key
      → IsKeyed m
      → Extends m (λ c. str_eq key c) (insert key h m)
  insert-Extends key h m own w =
      (insert-IsKeyed key h m own w, λ c. ground (arith, lookup-insert key c h m))

  add_hit-Extends :
      (k rank : ℕ) (h : ChunkHit S) (m : Merged ops)
      → IsKeyed m
      → Extends m (λ c. in_context c h) (add_hit ops k rank h m)
  unfolding add_hit
  add_hit-Extends k rank h m w =
      let share = ops.reciprocal (k + rank + 1) in
      elim (Option-cases (lookup (context_id h.chunk) m)) [
        | inl e ↦
            let new : ChunkHit S = record { chunk = h.chunk; score = ops.add ops.nothing share } in
            rw (e, add_hit) (insert-Extends (context_id h.chunk) new m refl w)
        | inr (x, e) ↦
            let new : ChunkHit S = record { chunk = x.chunk; score = ops.add x.score share } in
            rw (e, add_hit)
              (insert-Extends (context_id h.chunk) new m
                (lookup-IsKeyed (context_id h.chunk) m x w e) w)
      ]

  add_hits-Extends :
      (k rank : ℕ) (hs : List (ChunkHit S)) (m : Merged ops)
      → IsKeyed m
      → Extends m (λ c. any_in c hs) (add_hits ops k rank hs m)
  unfolding add_hits
  add_hits-Extends k rank [] m w = (w, λ c. refl)
  add_hits-Extends k rank (h ∷ hs) m w =
      let (w₁, one) = add_hit-Extends k rank h m w in
      let (w₂, rest) = add_hits-Extends k (suc rank) hs (add_hit ops k rank h m) w₁ in
      (w₂, λ c. rest c ∙ bring (any_in c hs) (in_context c h) _ _ (one c))

  add_lists-Extends :
      (k : ℕ) (lists : List (List (ChunkHit S))) (m : Merged ops)
      → IsKeyed m
      → Extends m (λ c. any_in_lists c lists) (add_lists ops k lists m)
  unfolding add_lists
  add_lists-Extends k [] m w = (w, λ c. refl)
  add_lists-Extends k (hs ∷ lists) m w =
      let (w₁, one) = add_hits-Extends k 0 hs m w in
      let (w₂, rest) = add_lists-Extends k lists (add_hits ops k 0 hs m) w₁ in
      (w₂, λ c. rest c ∙ bring (any_in_lists c lists) (any_in c hs) _ _ (one c))

  weighed-count :
      (c : String) (m : Merged ops)
      → IsKeyed m
      → count_if (in_context c) (weighed ops m) ≡ (if is_some (lookup c m) then 1 else 0)
  unfolding weighed lookup
  weighed-count c [] w = refl
  weighed-count c ((key, h) ∷ rest) (own, free, w) = rw own (elim (Bool-cases (str_eq key c)) [
    | inl hit ↦ ground (arith, weighed-count c rest w, eq_iff key c)
    | inr miss ↦ rw miss (weighed-count c rest w)
  ])

  insert_hit-count :
      (p : ChunkHit S → Bool) (h : ChunkHit S) (hs : List (ChunkHit S))
      → count_if p (insert_hit ops h hs) ≡ count_if p (h ∷ hs)
  unfolding insert_hit
  insert_hit-count p h [] = refl
  insert_hit-count p h (x ∷ xs) = elim (Bool-cases (ranks_before ops h x)) [
    | inl first ↦ rw first refl
    | inr later ↦ rw later (ground (arith, insert_hit-count p h xs))
  ]

  sort_hits-count :
      (p : ChunkHit S → Bool) (hs : List (ChunkHit S))
      → count_if p (sort_hits ops hs) ≡ count_if p hs
  unfolding sort_hits
  sort_hits-count p [] = refl
  sort_hits-count p (h ∷ hs) =
      insert_hit-count p h (sort_hits ops hs) ∙ ground (arith, sort_hits-count p hs)

  take-count :
      (p : ChunkHit S → Bool) (n : ℕ) (hs : List (ChunkHit S))
      → count_if p (take n hs) ≤ count_if p hs
  take-count p zero hs = omega arith
  take-count p (suc n) [] = omega arith
  take-count p (suc n) (h ∷ hs) = ground (arith, take-count p n hs)

  truncate_hits-take : (hs : List (ChunkHit S)) (n : ℕ) → truncate_hits hs (suc n) ≡ take (suc n) hs
  unfolding truncate_hits
  truncate_hits-take hs n = elim (Bool-cases (ltb (suc n) (length hs))) [
    | inl long ↦ ground (arith, long)
    | inr short ↦ ground (arith, short, take_all (suc n) hs (ground arith))
  ]

  once : {a b : ℕ} (t : Bool) → a ≤ b → b ≡ (if t then 1 else 0) → a ≤ 1
  once t h e = ground arith

  -- Rank fusion of any lists of hits. Without a cut each context of the hits, a parent block with its
  -- children, stands in the result exactly once, and no other context does. With a cut at top_k the
  -- result is the first top_k of these, and no context stands in it twice.
  pub rrf_fuse_lem :
      (k top_k : ℕ) (lists : List (List (ChunkHit S))) (c : String)
      → (count_if (in_context c) (rrf_fuse ops k 0 lists) ≡ (if any_in_lists c lists then 1 else 0))
        × (rrf_fuse ops k (suc top_k) lists ≡ take (suc top_k) (rrf_fuse ops k 0 lists))
        × (count_if (in_context c) (rrf_fuse ops k (suc top_k) lists) ≤ 1)
  unfolding rrf_fuse truncate_hits lookup
  rrf_fuse_lem k top_k lists c =
      let all = sort_hits ops (weighed ops (add_lists ops (if leb k 0 then 60 else k) lists [])) in
      let (w, seen) = add_lists-Extends (if leb k 0 then 60 else k) lists [] tt in
      let exact : count_if (in_context c) all ≡ (if any_in_lists c lists then 1 else 0) =
        sort_hits-count (in_context c) _
        ∙ weighed-count c _ w
        ∙ ap (λ b. if b then 1 else 0) (seen c ∙ ground arith) in
      let cut = truncate_hits-take all top_k in
      (
        exact,
        cut,
        rw cut (once (any_in_lists c lists) (take-count (in_context c) (suc top_k) all) exact),
      )

  truncate_hits-length : (hs : List (ChunkHit S)) (n : ℕ) → 0 < n → length (truncate_hits hs n) ≤ n
  truncate_hits-length hs zero pos = absurd (omega arith)
  truncate_hits-length hs (suc n) pos =
      rw (truncate_hits-take hs n) (omega (arith, length-take (suc n) hs))

  bounded :
      (hs hits : List (ChunkHit S)) (k : ℕ)
      → 0 < k
      → ◌≡◌ {A = Found ops} (ok (truncate_hits hs k)) (ok hits)
      → length hits ≤ k
  bounded hs hits k pos h =
      let same : truncate_hits hs k ≡ hits = cc in rw⁻¹ same (truncate_hits-length hs k pos)

  abbrev pub failed : Found ops → Bool
  failed (ok hits) = false
  failed (err e) = true

  -- A hybrid search fails only when both searches fail, and never gives more hits than asked for (10
  -- where the number is 0).
  pub search_lem :
      (rrf_k : ℕ) (keyword vector : ℕ → Found ops) (top_k : ℕ)
      → let k = if leb top_k 0 then 10 else top_k in
        (failed (search ops rrf_k keyword vector top_k) ≡ (failed (keyword k) && failed (vector k)))
        × ((hits : List (ChunkHit S))
            → search ops rrf_k keyword vector top_k ≡ ok hits
            → length hits ≤ k)
  unfolding search rrf_fuse
  search_lem rrf_k keyword vector top_k =
      let k = if leb top_k 0 then 10 else top_k in
      let pos : 0 < k = ground arith in
      elim (Result-cases (keyword k)) [
        | inr (e, q) ↦ elim (Result-cases (vector k)) [
          | inr (f, r) ↦ rw (q, search) (rw (r, search) (refl, λ hits h. absurd (ground arith)))
          | inl (vec, r) ↦
              rw (q, search) (rw (r, search) (refl, λ hits h. bounded vec hits k pos h))
        ]
        | inl (kw, q) ↦ elim (Result-cases (vector k)) [
          | inr (f, r) ↦ rw (q, search) (rw (r, search) (refl, λ hits h. bounded kw hits k pos h))
          | inl (vec, r) ↦
              let fused = add_lists ops (if leb rrf_k 0 then 60 else rrf_k) (kw ∷ vec ∷ []) [] in
              rw (q, search)
                (rw (r, search)
                  (refl, λ hits h. bounded (sort_hits ops (weighed ops fused)) hits k pos h))
        ]
      ]
