-- ===== src/Ingest/Lines.antt =====
-- The lines of a text: Go's strings.Split and strings.Join at the newline, and the slices of lines.
use godeepwiki.Common.{
  ℕ, zero, suc, ◌+◌, ◌-◌, ◌≤◌, ◌≡◌, refl, sym, ap, List, [], ◌∷◌, ◌++◌, arith, inl, inr, Bool-cases,
  if◌then◌else◌, ◌==◌, ==_iff, take, drop, length, length-take, length-drop,
}
use godeepwiki.Model.Chunk.{Text}

abbrev newline : ℕ
newline = 10

-- One more character for the first line.
abbrev extend_first : ℕ → List Text → List Text
extend_first c [] = (c ∷ []) ∷ []
extend_first c (l ∷ ls) = (c ∷ l) ∷ ls

unfoldable pub split_lines : Text → List Text
split_lines [] = [] ∷ []
split_lines (c ∷ cs) =
    let rest = split_lines cs in if c == newline then [] ∷ rest else extend_first c rest

unfoldable pub join_lines : List Text → Text
join_lines [] = []
join_lines (l ∷ []) = l
join_lines (l ∷ m ∷ ls) = l ++ newline ∷ join_lines (m ∷ ls)

-- lines[a:b]
abbrev pub slice {ℓ} : {A : Type ℓ} → ℕ → ℕ → List A → List A
slice a b xs = take (b - a) (drop a xs)

abbrev NonEmpty : List Text → Type 0
NonEmpty [] = ⊥
NonEmpty (l ∷ ls) = Unit {0}

split_lines-NonEmpty : (t : Text) → NonEmpty (split_lines t)
unfolding split_lines
split_lines-NonEmpty [] = tt
split_lines-NonEmpty (c ∷ cs) = elim (Bool-cases (c == newline)) [
  | inl e ↦ rw e tt
  | inr e ↦ rw e (extended (split_lines cs))
]
  where
    extended : (ls : List Text) → NonEmpty (extend_first c ls)
    extended [] = tt
    extended (l ∷ ls) = tt

join-newline : (ls : List Text) → NonEmpty ls → join_lines ([] ∷ ls) ≡ newline ∷ join_lines ls
unfolding join_lines
join-newline [] n = absurd n
join-newline (l ∷ ls) n = refl

join-extend_first :
    (c : ℕ) (ls : List Text) → NonEmpty ls → join_lines (extend_first c ls) ≡ c ∷ join_lines ls
unfolding join_lines
join-extend_first c [] n = absurd n
join-extend_first c (l ∷ []) n = refl
join-extend_first c (l ∷ m ∷ ls) n = refl

-- Splitting a text into lines and joining them gives the text back.
pub join-split : (t : Text) → join_lines (split_lines t) ≡ t
unfolding split_lines
join-split [] = unfold join_lines in refl
join-split (c ∷ cs) = elim (Bool-cases (c == newline)) [
  | inl e ↦
      let q : c ≡ newline = (==_iff c newline).0 e in
      rw (e, join-newline (split_lines cs) (split_lines-NonEmpty cs), join-split cs, q)
  | inr e ↦ rw (e, join-extend_first c (split_lines cs) (split_lines-NonEmpty cs), join-split cs)
]

module _ {ℓ} {A : Type ℓ} where
  take-nil : (n : ℕ) → take {A = A} n [] ≡ []
  take-nil zero = refl
  take-nil (suc n) = refl

  take-take : (a b : ℕ) (xs : List A) → a ≤ b → take a (take b xs) ≡ take a xs
  take-take zero b xs h = refl
  take-take (suc a) zero xs h = absurd (omega arith)
  take-take (suc a) (suc b) [] h = refl
  take-take (suc a) (suc b) (x ∷ xs) h = ap (◌∷◌ x) (take-take a b xs (omega arith))

  drop-drop : (a b : ℕ) (xs : List A) → drop a (drop b xs) ≡ drop (b + a) xs
  drop-drop a zero xs = let q : zero + a ≡ a = omega arith in rw q
  drop-drop zero (suc b) xs = let q : suc b + zero ≡ suc b = omega arith in rw q
  drop-drop (suc a) (suc b) [] = let q : suc b + suc a ≡ suc (b + suc a) = omega arith in rw q
  drop-drop a (suc b) (x ∷ xs) =
      let q : suc b + a ≡ suc (b + a) = omega arith in rw q (drop-drop a b xs)

  drop-take : (a b : ℕ) (xs : List A) → drop a (take b xs) ≡ take (b - a) (drop a xs)
  drop-take zero b xs = let q : b - 0 ≡ b = omega arith in rw q
  drop-take (suc a) zero xs = let q : 0 - suc a ≡ 0 = omega arith in rw q
  drop-take (suc a) (suc b) [] = sym (take-nil (suc b - suc a))
  drop-take (suc a) (suc b) (x ∷ xs) =
      let q : suc b - suc a ≡ b - a = omega arith in rw q (drop-take a b xs)

  pub length-slice : (a b : ℕ) (xs : List A) → b ≤ length xs → length (slice a b xs) ≡ b - a
  length-slice a b xs h = omega (arith, length-take (b - a) (drop a xs), length-drop a xs)

  -- A slice of a slice is a slice of the whole.
  pub slice-slice :
      (s t a b : ℕ) (xs : List A) → s + b ≤ t → slice a b (slice s t xs) ≡ slice (s + a) (s + b) xs
  slice-slice s t a b xs h =
      let q : s + b - (s + a) ≡ b - a = omega arith in
      rw (drop-take a (t - s) (drop s xs), drop-drop a s xs, q)
        (take-take (b - a) (t - s - a) (drop (s + a) xs) (omega arith))
