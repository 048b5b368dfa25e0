-- ===== src/Ingest/Windows/Cover.antt =====
-- The sequence of windows of splitWindows: it covers the lines, in order, and respects the headings.
use godeepwiki.Common.{
  ℕ, zero, suc, ◌+◌, ◌-◌, ◌≤◌, ◌<◌, ◌≡◌, refl, ◌⊎◌, inl, inr, Bool, true, List, [], ◌∷◌, arith,
  dec_lt, Bool-cases, ltb, leb,
}
use godeepwiki.Ingest.Windows.{Span, grow, next_start, windows, split_windows}
use godeepwiki.Ingest.Windows.Grow.{IsWindow, Taken, grow-IsWindow}
use godeepwiki.Ingest.Windows.Retreat.{Overlaps, next_start_lem}

abbrev pub Covered : ℕ → List Span → Type 0
Covered i [] = ⊥
Covered i (s ∷ ss) = ((s.start ≤ i) × (i < s.stop)) ⊎ Covered i ss

abbrev pub BeginsAt : ℕ → List Span → Type 0
BeginsAt a [] = ⊥
BeginsAt a (s ∷ ss) = s.start ≡ a

abbrev pub HasStart : ℕ → List Span → Type 0
HasStart i [] = ⊥
HasStart i (s ∷ ss) = (s.start ≡ i) ⊎ HasStart i ss

module _ (tok : ℕ → ℕ) (bound : ℕ → Bool) (chunk_size chunk_overlap : ℕ) where
  -- The last window ends with the last line; any other is followed by one that begins after it
  -- began, leaves no line out, and takes back no more than the overlap.
  abbrev pub Links : ℕ → Span → List Span → Type 0
  Links n s [] = s.stop ≡ n
  Links n s (t ∷ ts) =
      (s.start < t.start)
      × (t.start ≤ s.stop)
      × Overlaps tok bound chunk_size chunk_overlap 0 t.start s.stop

  abbrev pub IsChain : ℕ → List Span → Type 0
  IsChain n [] = Unit {0}
  IsChain n (s ∷ ss) =
      IsWindow tok bound chunk_size chunk_overlap n s.start s.stop × Links n s ss × IsChain n ss

  first-Taken :
      (n a : ℕ) → 0 < chunk_size → a < n → Taken tok bound chunk_size chunk_overlap n a a 0 (n - a)
  first-Taken n a pos h = record {
    ordered = omega arith;
    counted = omega arith;
    summed = let q : a - a ≡ 0 = omega arith in rw q;
    under = pos;
    inner = λ i lo hi. absurd (omega arith);
  }

  link :
      (n : ℕ) (s : Span) (ss : List Span) (next : ℕ)
      → BeginsAt next ss
      → s.start < next
      → next ≤ s.stop
      → Overlaps tok bound chunk_size chunk_overlap 0 next s.stop
      → Links n s ss
  link n s [] next b lo hi over = absurd b
  link n s (t ∷ ts) next b lo hi over = rw b (lo, hi, over)

  windows-IsChain :
      (fuel n a : ℕ)
      → 0 < chunk_size
      → a < n
      → n ≤ a + fuel
      → IsChain n (windows tok bound chunk_size chunk_overlap fuel n a)
        × BeginsAt a (windows tok bound chunk_size chunk_overlap fuel n a)
  unfolding windows
  windows-IsChain zero n a pos h f = absurd (omega arith)
  windows-IsChain (suc fuel) n a pos h f =
      let g = grow tok bound chunk_size chunk_overlap (n - a) a a 0 in
      let w : IsWindow tok bound chunk_size chunk_overlap n a g.stop =
        grow-IsWindow tok bound chunk_size chunk_overlap (n - a) n a a 0 (first-Taken n a pos h)
          h in
      let (lo, hi, over, _) = next_start_lem tok bound chunk_size chunk_overlap a g w.nonempty in
      let q : ltb a n ≡ true = ground arith in
      rw q (elim (Bool-cases (leb n g.stop)) [
        | inl done ↦ rw done ((w, ground (arith, w.within), tt), refl)
        | inr more ↦
            let (chain, begins) =
              windows-IsChain fuel n (next_start tok bound chunk_size chunk_overlap a g) pos
                (ground arith) (omega arith) in
            rw more ((w, link n _ _ _ begins lo hi over, chain), refl)
      ])

  -- With a positive budget the windows of n lines, if there are any lines, begin at line 0, and each
  -- is not empty, has no boundary line after its first line, is under the budget but for its last
  -- line, and is followed as `Links` says: no line is left out, and the last window ends at n.
  pub split_windows-IsChain :
      (n : ℕ)
      → 0 < chunk_size
      → 0 < n
      → IsChain n (split_windows tok bound chunk_size chunk_overlap n)
        × BeginsAt 0 (split_windows tok bound chunk_size chunk_overlap n)
  unfolding split_windows
  split_windows-IsChain n pos h = windows-IsChain n n 0 pos h (omega arith)

  chain-Covered :
      (n i a : ℕ) (ss : List Span) → IsChain n ss → BeginsAt a ss → a ≤ i → i < n → Covered i ss
  chain-Covered n i a [] c b lo hi = b
  chain-Covered n i a (s ∷ []) c b lo hi = inl (omega arith, omega arith)
  chain-Covered n i a (s ∷ t ∷ ts) c b lo hi = elim (dec_lt i s.stop) [
    | yes here ↦ inl (omega arith, here)
    | no later ↦ inr (chain-Covered n i t.start (t ∷ ts) c.2 refl (omega (arith, c.1.1)) hi)
  ]

  -- Every line is in a window.
  pub split_windows-Covered :
      (n i : ℕ)
      → 0 < chunk_size
      → i < n
      → Covered i (split_windows tok bound chunk_size chunk_overlap n)
  split_windows-Covered n i pos h =
      let (chain, begins) = split_windows-IsChain n pos (omega arith) in
      chain-Covered n i 0 _ chain begins (omega arith) h

  boundary-HasStart :
      (n i : ℕ) (ss : List Span) → IsChain n ss → Covered i ss → bound i ≡ true → HasStart i ss
  boundary-HasStart n i [] c v h = v
  boundary-HasStart n i (s ∷ ss) c (inr v) h = inr (boundary-HasStart n i ss c.2 v h)
  boundary-HasStart n i (s ∷ ss) c (inl (lo, hi)) h = elim (dec_lt s.start i) [
    | yes inside ↦ absurd (ground (arith, c.0.inner i inside hi))
    | no first ↦ inl (omega arith)
  ]

  -- A line that must begin a window does: a heading is never in the middle of a block.
  pub split_windows-HasStart :
      (n i : ℕ)
      → 0 < chunk_size
      → i < n
      → bound i ≡ true
      → HasStart i (split_windows tok bound chunk_size chunk_overlap n)
  split_windows-HasStart n i pos h b =
      let (chain, begins) = split_windows-IsChain n pos (omega arith) in
      boundary-HasStart n i _ chain (split_windows-Covered n i pos h) b
