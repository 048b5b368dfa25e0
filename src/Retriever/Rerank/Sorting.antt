-- ===== src/Retriever/Rerank/Sorting.antt =====
-- The exchange sort of the reranker (deepwiki/internal/retriever/rerank.go): the result is sorted, and a
-- permutation.
use mathlib.Core.List.{Perm}
use mathlib.Core.List.Perm
use godeepwiki.Common.{
  ℕ, zero, suc, ◌≤◌, ◌≡◌, refl, ap, subst, sym, Bool, true, false, ◌&&◌, ◌||◌, List, [], ◌∷◌,
  if◌then◌else◌, ltb, ◌==◌, Bool-cases, inl, inr, All, length, arith,
}
use godeepwiki.Retriever.{Scores}
use godeepwiki.Retriever.Rerank.{Scored, beats, winner, losers, exchange}

-- Scores are ordered as numbers are, which holds of the numbers that a JSON array can hold.
pub record Ordered {S : Type 0} (ops : Scores S) : Type 0 where
  pub rank : S → ℕ
  pub above_rank : (a b : S) → ops.above a b ≡ ltb (rank b) (rank a)
  pub same_rank : (a b : S) → ops.same a b ≡ (rank a == rank b)

module _ {S : Type 0} (ops : Scores S) (ordered : Ordered ops) where
  beats_rank :
      (b a : Scored S)
      → beats ops b a ≡ (
          ltb (ordered.rank a.score) (ordered.rank b.score)
          || (ordered.rank b.score == ordered.rank a.score && ltb b.idx a.idx))
  unfolding beats
  beats_rank b a = rw (ordered.above_rank b.score a.score, ordered.same_rank b.score a.score) refl

  beats_asym : (b a : Scored S) → beats ops b a ≡ true → beats ops a b ≡ false
  beats_asym b a h = ground (arith, beats_rank b a, beats_rank a b, h)

  beats_trans :
      (a b c : Scored S) → beats ops a b ≡ false → beats ops b c ≡ false → beats ops a c ≡ false
  beats_trans a b c h k = ground (arith, beats_rank a b, beats_rank b c, beats_rank a c, h, k)

  winner_lem : (p : Scored S) (xs : List (Scored S)) → beats ops p (winner ops p xs) ≡ false
  unfolding winner
  winner_lem p [] = ground (arith, beats_rank p p)
  winner_lem p (x ∷ xs) = elim (Bool-cases (beats ops x p)) [
    | inl better ↦
        rw (better, winner)
          (beats_trans p x (winner ops x xs) (beats_asym x p better) (winner_lem x xs))
    | inr worse ↦ rw (worse, winner) (winner_lem p xs)
  ]

  losers-All :
      (p : Scored S) (xs : List (Scored S))
      → All (λ y. beats ops y (winner ops p xs) ≡ false) (losers ops p xs)
  unfolding winner losers
  losers-All p [] = tt
  losers-All p (x ∷ xs) =
      let Parted : Bool → Type 0 = λ b.
        (beats ops (if b then p else x) (winner ops (if b then x else p) xs) ≡ false)
        × All (λ y. beats ops y (winner ops (if b then x else p) xs) ≡ false)
            (losers ops (if b then x else p) xs) in
      elim (Bool-cases (beats ops x p)) [
        | inl better ↦ subst Parted (sym better) (
          beats_trans p x (winner ops x xs) (beats_asym x p better) (winner_lem x xs),
          losers-All x xs,
        )
        | inr worse ↦
            subst Parted (sym worse)
              (beats_trans x p (winner ops p xs) worse (winner_lem p xs), losers-All p xs)
      ]

  -- What holds of all holds of the winner and of the losers.
  parted-All :
      (P : Scored S → Type 0) (p : Scored S) (xs : List (Scored S))
      → P p
      → All P xs
      → P (winner ops p xs) × All P (losers ops p xs)
  unfolding winner losers
  parted-All P p [] h all = (h, tt)
  parted-All P p (x ∷ xs) h all = elim (Bool-cases (beats ops x p)) [
    | inl better ↦ let (w, ls) = parted-All P x xs all.0 all.1 in rw better (w, (h, ls))
    | inr worse ↦ let (w, ls) = parted-All P p xs h all.1 in rw worse (w, (all.0, ls))
  ]

  exchange-All :
      (P : Scored S → Type 0) (fuel : ℕ) (xs : List (Scored S))
      → All P xs
      → All P (exchange ops fuel xs)
  unfolding exchange
  exchange-All P zero xs all = all
  exchange-All P (suc fuel) [] all = tt
  exchange-All P (suc fuel) (x ∷ xs) all =
      let (w, ls) = parted-All P x xs all.0 all.1 in (w, exchange-All P fuel (losers ops x xs) ls)

  length-losers : (p : Scored S) (xs : List (Scored S)) → length (losers ops p xs) ≡ length xs
  unfolding losers
  length-losers p [] = refl
  length-losers p (x ∷ xs) = ap suc (length-losers (if beats ops x p then x else p) xs)

  parted-perm :
      (p : Scored S) (xs : List (Scored S)) → Perm (winner ops p xs ∷ losers ops p xs) (p ∷ xs)
  unfolding winner losers
  parted-perm p [] = Perm.refl (p ∷ [])
  parted-perm p (x ∷ xs) = elim (Bool-cases (beats ops x p)) [
    | inl better ↦ rw better (
        Perm.trans (Perm.swap p (winner ops x xs) (losers ops x xs))
          (Perm.cons p (parted-perm x xs)))
    | inr worse ↦ rw worse (
        Perm.trans (Perm.swap x (winner ops p xs) (losers ops p xs))
          (Perm.trans (Perm.cons x (parted-perm p xs)) (Perm.swap p x xs)))
  ]

  pub exchange-perm : (fuel : ℕ) (xs : List (Scored S)) → Perm (exchange ops fuel xs) xs
  unfolding exchange
  exchange-perm zero xs = Perm.refl xs
  exchange-perm (suc fuel) [] = Perm.refl []
  exchange-perm (suc fuel) (x ∷ xs) =
      Perm.trans (Perm.cons (winner ops x xs) (exchange-perm fuel (losers ops x xs)))
        (parted-perm x xs)

  -- No later one beats an earlier one.
  abbrev pub IsRanked : List (Scored S) → Type 0
  IsRanked [] = Unit {0}
  IsRanked (x ∷ xs) = All (λ y. beats ops y x ≡ false) xs × IsRanked xs

  pub exchange-IsRanked :
      (fuel : ℕ) (xs : List (Scored S)) → length xs ≤ fuel → IsRanked (exchange ops fuel xs)
  unfolding exchange
  exchange-IsRanked zero [] h = tt
  exchange-IsRanked zero (x ∷ xs) h = absurd (omega arith)
  exchange-IsRanked (suc fuel) [] h = tt
  exchange-IsRanked (suc fuel) (x ∷ xs) h = (
    exchange-All (λ y. beats ops y (winner ops x xs) ≡ false) fuel (losers ops x xs)
        (losers-All x xs),
    exchange-IsRanked fuel (losers ops x xs) (omega (arith, length-losers x xs)),
  )
