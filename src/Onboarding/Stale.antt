-- ===== src/Onboarding/Stale.antt =====
-- The user of the guard, which the page does not renew.
mod Tests
use noant.Base.{
  Text, codes, ◌===◌, Bool, true, false, not, ◌&&◌, Option, none, some, List, [], ◌∷◌, ◌≡◌, refl,
  arith, if_intro, Option-cases, if◌then◌else◌,
}
use noant.Auth.{User, Auth, Answer, Shown, navigate, needs_onboarding, visit}
use noant.Auth.Guards.{visit-dashboard}
use noant.Onboarding.{
  Step, profile, training, whatsapp, complete, same_step, Onboarding, begin, leave, status_loaded,
  industries_loaded, complete_step, step_posted, user_refreshed, select_industry, press_continue,
  handle_auto_create, auto_created, press_skip_training, whatsapp_done, at, Event, status,
  templates, user_got, selects, continues, auto_creates, skips_training, ends_whatsapp, finishes,
  posted, refreshes, auto_creates_done, step, run,
}

-- The page is the onboarding under the guard `g`.
pub record IsAt (g : Auth) (s : Onboarding) : Type 0 where
  pub guarded : s.guard ≡ g
  pub stays : s.path ≡ codes "/onboarding"

module _ (g : Auth) (u : User) (l : g.loading ≡ false) (h : g.user ≡ some u)
    (n : needs_onboarding u ≡ true) where
  leave-IsAt : (s : Onboarding) → IsAt g s → IsAt g (leave s)
  unfolding leave
  leave-IsAt s i = ground (arith, visit-dashboard g u l h n)

  status_loaded-IsAt :
      (done : List Step) (s : Onboarding) → IsAt g s → IsAt g (status_loaded done s)
  unfolding status_loaded
  status_loaded-IsAt done s i = ground (
    arith,
    leave-IsAt (record s { completed = done }) (record { guarded = i.guarded; stays = i.stays }),
  )

  at-IsAt :
      (a : Step) (f : Onboarding → Onboarding) (s : Onboarding)
      → IsAt g s
      → IsAt g (f s)
      → IsAt g (at a f s)
  at-IsAt a f s i j =
      if_intro (λ t. IsAt g t) (same_step a s.current_step) (f s) s (λ e. j) (λ e. i)

  step-IsAt : (e : Event) (s : Onboarding) → IsAt g s → IsAt g (step e s)
  unfolding step industries_loaded select_industry press_continue handle_auto_create
      press_skip_training whatsapp_done step_posted user_refreshed auto_created
  step-IsAt (status done) s i = status_loaded-IsAt done s i
  step-IsAt (templates none) s i = ground arith
  step-IsAt (templates (some is)) s i = ground arith
  step-IsAt (user_got a) s i = record { guarded = i.guarded; stays = i.stays }
  step-IsAt (selects id) s i = at-IsAt profile (select_industry id) s i (ground arith)
  step-IsAt continues s i = at-IsAt profile press_continue s i (ground arith)
  step-IsAt auto_creates s i = at-IsAt training handle_auto_create s i (ground arith)
  step-IsAt skips_training s i = at-IsAt training press_skip_training s i (ground arith)
  step-IsAt ends_whatsapp s i = at-IsAt whatsapp whatsapp_done s i (ground arith)
  step-IsAt finishes s i = at-IsAt complete leave s i (leave-IsAt s i)
  step-IsAt (posted a true) s i = ground arith
  step-IsAt (posted a false) s i = ground arith
  step-IsAt (refreshes a answer) s i = ground arith
  step-IsAt (auto_creates_done true) s i = ground arith
  step-IsAt (auto_creates_done false) s i = ground arith

  run-IsAt : (es : List Event) (s : Onboarding) → IsAt g s → IsAt g (run es s)
  unfolding run
  run-IsAt [] s i = i
  run-IsAt (e ∷ es) s i = run-IsAt es (step e s) (step-IsAt e s i)

-- While the guard's copy of the user says that the onboarding is not finished, the page stays where
-- it is whatever happens on it, also when the last step is saved, the page has the new user and
-- `Go to Dashboard` is pressed: the guard has no part in `refreshUser`.
pub path-run-begin :
    (g : Auth) (u : User)
    → g.loading ≡ false
    → g.user ≡ some u
    → needs_onboarding u ≡ true
    → (es : List Event) → (run es (begin g)).path ≡ codes "/onboarding"
path-run-begin g u l h n es =
    (run-IsAt g u l h n es (begin g) (record { guarded = refl; stays = refl })).stays
