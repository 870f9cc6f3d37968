-- ===== src/Onboarding/Stale/Tests.antt =====
-- The three steps are saved, the page gets the new user, and the dashboard is asked for.
use noant.Base.{codes, true, false, some, List, [], ◌∷◌, ◌≡◌, refl}
use noant.Auth.{User, Auth, got, needs_onboarding}
use noant.Onboarding.{
  begin, profile, training, whatsapp, Event, selects, continues, posted, refreshes, skips_training,
  ends_whatsapp, finishes, run,
}
use noant.Onboarding.Stale.{path-run-begin}

abbrev begun : User
begun = record { onboarding_status = codes "training"; industry = codes "hotel" }

abbrev settled : User
settled = record { onboarding_status = codes "complete"; industry = codes "hotel" }

abbrev guard : Auth
guard = record { user = some begun; loading = false; cleared = 0 }

abbrev all_steps : List Event
all_steps =
    selects (codes "hotel")
    ∷ continues
    ∷ posted profile true
    ∷ refreshes profile (got begun)
    ∷ skips_training
    ∷ posted training true
    ∷ refreshes training (got begun)
    ∷ ends_whatsapp
    ∷ posted whatsapp true
    ∷ refreshes whatsapp (got settled)
    ∷ finishes
    ∷ []

path-run-begin_test : (run all_steps (begin guard)).path ≡ codes "/onboarding"
unfolding needs_onboarding
path-run-begin_test = path-run-begin guard begun refl refl refl all_steps
