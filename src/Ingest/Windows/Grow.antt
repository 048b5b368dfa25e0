-- ===== src/Ingest/Windows/Grow.antt =====
-- One window: what the inner loop of splitWindows stops at.
use godeepwiki.Common.{
  ℕ, zero, suc, ◌+◌, ◌-◌, ◌≤◌, ◌<◌, ◌≡◌, inl, inr, Bool, true, false, ◌&&◌, arith, dec_lt,
  Bool-cases, ltb, leb,
}
use godeepwiki.Ingest.Windows.{grow}
use godeepwiki.Ingest.Windows.Range.{sum_range}

module _ (tok : ℕ → ℕ) (bound : ℕ → Bool) (chunk_size chunk_overlap : ℕ) where
  -- No line strictly between `a` and `b` must begin a window.
  abbrev pub NoBoundary : ℕ → ℕ → Type 0
  NoBoundary a b = (i : ℕ) → a < i → i < b → bound i ≡ false

  -- The first line is in, and the lines before the last stay under the budget.
  pub record IsWindow (n a b : ℕ) : Type 0 where
    pub nonempty : a < b
    pub within : b ≤ n
    pub inner : NoBoundary a b
    pub budget : sum_range tok a (b - 1 - a) < chunk_size

  -- What the loop knows before a round: the lines in [a, e) are taken, and count `tokens`.
  pub record Taken (n a e tokens left : ℕ) : Type 0 where
    pub ordered : a ≤ e
    pub counted : e + left ≡ n
    pub summed : tokens ≡ sum_range tok a (e - a)
    pub under : tokens < chunk_size
    pub inner : NoBoundary a e

  extend-NoBoundary :
      (a e : ℕ) → NoBoundary a e → (ltb a e && bound e) ≡ false → NoBoundary a (e + 1)
  extend-NoBoundary a e h b i lo hi = elim (dec_lt i e) [
    | yes before ↦ h i lo before
    | no later ↦ let q : i ≡ e = omega arith in rw q (ground (arith, q))
  ]

  sum_range-pred : (a e : ℕ) → sum_range tok a (e - 1 - a) ≤ sum_range tok a (e - a)
  sum_range-pred a e = elim (dec_lt a e) [
    | yes h ↦ let q : e - a ≡ suc (e - 1 - a) = omega arith in rw q (omega arith)
    | no h ↦ let q : e - 1 - a ≡ e - a = omega arith in rw q (omega arith)
  ]

  sum_range-next : (a e : ℕ) → a ≤ e → sum_range tok a (e + 1 - a) ≡ sum_range tok a (e - a) + tok e
  sum_range-next a e h =
      let q : e + 1 - a ≡ suc (e - a) = omega arith in
      let r : a + (e - a) ≡ e = omega arith in rw (q, r)

  pub grow-IsWindow :
      (left n a e tokens : ℕ)
      → Taken n a e tokens left
      → a < n
      → IsWindow n a (grow tok bound chunk_size chunk_overlap left a e tokens).stop
  unfolding grow
  grow-IsWindow zero n a e tokens t h = record {
    nonempty = omega arith;
    within = omega arith;
    inner = t.inner;
    budget = omega (arith, sum_range-pred a e);
  }
  grow-IsWindow (suc left) n a e tokens t h = elim (Bool-cases (ltb a e && bound e)) [
    | inl hit ↦ rw hit (record {
      nonempty = ground (arith, hit);
      within = omega arith;
      inner = t.inner;
      budget = omega (arith, sum_range-pred a e);
    })
    | inr miss ↦ rw miss (elim (Bool-cases (leb chunk_size (tokens + tok e))) [
      | inl full ↦ rw full (record {
        nonempty = omega arith;
        within = omega arith;
        inner = extend-NoBoundary a e t.inner miss;
        budget = let q : e + 1 - 1 - a ≡ e - a = omega arith in rw q (omega arith);
      })
      | inr room ↦ rw room (
          grow-IsWindow left n a (e + 1) (tokens + tok e)
            (record {
              ordered = omega arith;
              counted = omega arith;
              summed = omega (arith, sum_range-next a e t.ordered);
              under = ground (arith, room);
              inner = extend-NoBoundary a e t.inner miss;
            })
            h)
    ])
  ]

  -- Where the loop says that a boundary stopped it, that line must begin a window.
  pub grow_boundary :
      (left a e tokens : ℕ)
      → (grow tok bound chunk_size chunk_overlap left a e tokens).at_boundary ≡ true
      → bound (grow tok bound chunk_size chunk_overlap left a e tokens).stop ≡ true
  unfolding grow
  grow_boundary zero a e tokens h = cc
  grow_boundary (suc left) a e tokens h =
      ground (arith, grow_boundary left a (e + 1) (tokens + tok e))
