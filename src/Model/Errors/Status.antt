-- ===== src/Model/Errors/Status.antt =====
-- The frozen code list of model/errors.go against the HTTP status table.
use godeepwiki.Common.{ℕ, ◌/◌, ◌≡◌, Bool, true, false, List, [], ◌∷◌, arith, ◌==◌, ◌||◌}
use godeepwiki.Model.Errors.{http_status_of, message_of}

-- The twenty codes that the header of errors.go calls fixed.
abbrev pub frozen_codes : List ℕ
frozen_codes =
    40001 ∷ 40101 ∷ 40301 ∷ 40401 ∷ 40402 ∷ 40403 ∷ 40901 ∷ 40902 ∷ 42201 ∷ 42901 ∷ 42902 ∷ 50001
    ∷ 50004 ∷ 50201 ∷ 50202 ∷ 50301 ∷ 50203 ∷ 50302 ∷ 50303 ∷ 50304 ∷ []

abbrev pub has_code : ℕ → List ℕ → Bool
has_code c [] = false
has_code c (d ∷ ds) = c == d || has_code c ds

-- A code of the frozen list has its first three digits for its HTTP status, and any other number is
-- reported as 500 with the text of an internal error.
pub http_status_of-frozen :
    (c : ℕ)
    → ((has_code c frozen_codes ≡ true) → http_status_of c ≡ c / 100)
      × ((has_code c frozen_codes ≡ false)
          → (http_status_of c ≡ 500) × (message_of c ≡ "internal error"))
unfolding http_status_of message_of
http_status_of-frozen c = (λ h. ground arith, λ h. (ground arith, ground arith))
