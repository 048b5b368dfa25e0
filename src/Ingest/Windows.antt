-- ===== src/Ingest/Windows.antt =====
-- splitWindows of deepwiki/internal/ingest/chunker.go: line windows of about `chunk_size` tokens with
-- an overlap. `tok i` is the token estimate of line i, `bound i` says that line i must begin a window.
pub mod Range
pub mod Grow
pub mod Retreat
pub mod Cover
use godeepwiki.Common.{
  ℕ, zero, suc, ◌+◌, ◌-◌, Bool, true, false, ◌&&◌, List, [], ◌∷◌, ltb, leb, if◌then◌else◌,
}

pub record Span : Type 0 where
  pub start : ℕ
  pub stop : ℕ

-- Where the inner loop stopped, and whether a boundary stopped it.
pub record Grown : Type 0 where
  pub stop : ℕ
  pub at_boundary : Bool

module _ (tok : ℕ → ℕ) (bound : ℕ → Bool) (chunk_size chunk_overlap : ℕ) where
  -- for end < len(lines) { … }: recursion on the lines that are left.
  unfoldable pub grow : ℕ → ℕ → ℕ → ℕ → Grown
  grow zero start end tokens = record { stop = end; at_boundary = false }
  grow (suc left) start end tokens =
      let rest = grow left start (end + 1) (tokens + tok end) in
      if ltb start end && bound end
      then record { stop = end; at_boundary = true }
      else if leb chunk_size (tokens + tok end)
      then record { stop = end + 1; at_boundary = false }
      else rest

  -- for next > start && acc < chunkOverlap { … }: recursion on next - start.
  unfoldable pub retreat : ℕ → ℕ → ℕ → ℕ
  retreat zero next acc = next
  retreat (suc k) next acc =
      let rest = retreat k (next - 1) (acc + tok (next - 1)) in
      if ltb acc chunk_overlap then (if bound (next - 1) then next - 1 else rest) else next

  -- The first line of the window after [start, g.stop).
  unfoldable pub next_start : ℕ → Grown → ℕ
  unfolding retreat
  next_start start g =
      let next = retreat (g.stop - start) g.stop 0 in
      if g.at_boundary then g.stop else if leb next start then g.stop else next

  -- The outer loop, with the line count and fuel.
  unfoldable pub windows : ℕ → ℕ → ℕ → List Span
  unfolding grow next_start
  windows zero n start = []
  windows (suc fuel) n start =
      let g = grow (n - start) start start 0 in
      let rest = windows fuel n (next_start start g) in
      if ltb start n
      then record { start = start; stop = g.stop } ∷ (if leb n g.stop then [] else rest)
      else []

  -- Every window begins after the one before it, so the number of lines is enough fuel.
  unfoldable pub split_windows : ℕ → List Span
  unfolding windows
  split_windows n = windows n n 0
