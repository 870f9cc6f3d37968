-- ===== src/Review/Skipped/Tests.antt =====
-- Fifty questions, of which the first two are trained.
use noant.Base.{ℕ, zero, suc, codes, [], ◌∷◌, ◌++◌, List, Text, ◌≡◌, refl}
use noant.Review.{Question, limit}
use noant.Review.Totals.Tests.{question, shown}
use noant.Review.Skipped.{take, drop, remaining, reviewed, questions-reviewed}

-- As many questions, with the numbers below the first one.
abbrev numbered : ℕ → ℕ → List Question
numbered n zero = []
numbered n (suc k) = question n ∷ numbered (suc n) k

abbrev both_trained : List Text
both_trained = (0 ∷ []) ∷ (1 ∷ []) ∷ []

questions-reviewed_example :
    (reviewed
      (codes "Yes.")
      (codes "default")
      both_trained
      (numbered 0 25 ++ numbered 25 25)
      shown).questions
    ≡ remaining both_trained (numbered 0 25) ++ take limit (drop 2 (numbered 25 25))
questions-reviewed_example =
    questions-reviewed (codes "Yes.") (codes "default") both_trained (numbered 0 25)
      (numbered 25 25) shown refl refl refl
