-- ===== src/Ingest/Windows/Range.antt =====
-- Sums of token estimates over a range of lines.
use godeepwiki.Common.{ℕ, zero, suc, ◌+◌}

-- tok a + … + tok (a + k - 1)
abbrev pub sum_range : (ℕ → ℕ) → ℕ → ℕ → ℕ
sum_range tok a zero = 0
sum_range tok a (suc k) = sum_range tok a k + tok (a + k)
