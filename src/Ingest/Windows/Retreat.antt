-- ===== src/Ingest/Windows/Retreat.antt =====
-- Where the next window begins: the overlap loop of splitWindows.
use godeepwiki.Common.{
  ℕ, zero, suc, ◌+◌, ◌-◌, ◌≤◌, ◌<◌, ◌≡◌, refl, ◌⊎◌, inl, inr, Bool, true, false, arith, dec_lt,
  Bool-cases, ltb, leb,
}
use godeepwiki.Ingest.Windows.{Grown, retreat, next_start}
use godeepwiki.Ingest.Windows.Range.{sum_range}

module _ (tok : ℕ → ℕ) (bound : ℕ → Bool) (chunk_size chunk_overlap : ℕ) where
  -- The lines after the first that are taken again, from r + 1 to `stop` - 1, are under the budget.
  abbrev pub Overlaps : ℕ → ℕ → ℕ → Type 0
  Overlaps acc r stop = (r ≡ stop) ⊎ (acc + sum_range tok (suc r) (stop - suc r) < chunk_overlap)

  sum_range-last :
      (r next : ℕ)
      → suc r < next
      → sum_range tok (suc r) (next - suc r)
        ≡ sum_range tok (suc r) (next - 1 - suc r) + tok (next - 1)
  sum_range-last r next h =
      let q : next - suc r ≡ suc (next - 1 - suc r) = omega arith in
      let p : suc r + (next - 1 - suc r) ≡ next - 1 = omega arith in rw (q, p)

  step-Overlaps :
      (acc r next : ℕ)
      → acc < chunk_overlap
      → r ≤ next - 1
      → 0 < next
      → Overlaps (acc + tok (next - 1)) r (next - 1)
      → Overlaps acc r next
  step-Overlaps acc r next lo le pos (inl e) =
      let q : next - suc r ≡ 0 = omega arith in inr (rw q (omega arith))
  step-Overlaps acc r next lo le pos (inr s) = elim (dec_lt (suc r) next) [
    | yes before ↦ inr (omega (arith, sum_range-last r next before))
    | no last ↦ let q : next - suc r ≡ 0 = omega arith in inr (rw q (omega arith))
  ]

  retreat_lem :
      (k next acc : ℕ)
      → k ≤ next
      → let r = retreat tok bound chunk_size chunk_overlap k next acc in
        (next - k ≤ r) × (r ≤ next) × Overlaps acc r next
  unfolding retreat
  retreat_lem zero next acc h = (omega arith, omega arith, inl refl)
  retreat_lem (suc k) next acc h = elim (Bool-cases (ltb acc chunk_overlap)) [
    | inr done ↦ rw done (omega arith, omega arith, inl refl)
    | inl more ↦ elim (Bool-cases (bound (next - 1))) [
      | inl stops ↦
          rw (more, stops)
            (
              omega arith,
              omega arith,
              step-Overlaps acc (next - 1) next (ground (arith, more)) (omega arith) (omega arith)
                  (inl refl),
            )
      | inr goes ↦
          let (lo, hi, over) = retreat_lem k (next - 1) (acc + tok (next - 1)) (omega arith) in
          rw (more, goes)
            (
              omega (arith, lo),
              omega (arith, hi),
              step-Overlaps acc _ next (ground (arith, more)) hi (omega arith) over,
            )
    ]
  ]

  -- The next window begins after this one did, at its end at the latest, and the lines that it
  -- takes again, but for the first of them, are under the overlap.
  pub next_start_lem :
      (a : ℕ) (g : Grown)
      → a < g.stop
      → let next = next_start tok bound chunk_size chunk_overlap a g in
        (a < next)
        × (next ≤ g.stop)
        × Overlaps 0 next g.stop
        × (g.at_boundary ≡ true → next ≡ g.stop)
  unfolding next_start
  next_start_lem a g h =
      let (lo, hi, over) = retreat_lem (g.stop - a) g.stop 0 (omega arith) in
      elim (Bool-cases g.at_boundary) [
        | inl stopped ↦ rw stopped (h, omega arith, inl refl, λ t. refl)
        | inr free ↦
            rw free
              (elim (dec_lt a (retreat tok bound chunk_size chunk_overlap (g.stop - a) g.stop 0)) [
                | yes later ↦
                    let q : leb (retreat tok bound chunk_size chunk_overlap (g.stop - a) g.stop 0) a
                        ≡ false =
                      ground arith in
                    rw q (later, hi, over, λ t. cc)
                | no stuck ↦
                    let q : leb (retreat tok bound chunk_size chunk_overlap (g.stop - a) g.stop 0) a
                        ≡ true =
                      ground arith in
                    rw q (h, omega arith, inl refl, λ t. cc)
              ])
      ]
