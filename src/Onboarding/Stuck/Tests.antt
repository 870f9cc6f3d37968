-- ===== src/Onboarding/Stuck/Tests.antt =====
-- The first save fails, and the button is pressed again.
use noant.Base.{codes, false, List, [], ◌∷◌, ◌≡◌, refl}
use noant.Auth.{mounted}
use noant.Onboarding.{
  begin, profile, Event, selects, continues, select_industry, press_continue, step_posted, run,
}
use noant.Onboarding.Stuck.{saves, saves-run-failed}

abbrev again : List Event
again = continues ∷ selects (codes "hotel") ∷ continues ∷ []

saves-run-failed_test :
    let t = press_continue (select_industry (codes "spa") (begin mounted)) in
    saves ((run again (step_posted profile false t)).log) ≡ 1
saves-run-failed_test = saves-run-failed (codes "spa") (begin mounted) refl refl again refl
