-- ===== src/Onboarding/Stuck.antt =====
-- The button of the profile step behind a save that failed.
mod Tests
use noant.Base.{
  ℕ, zero, suc, ◌+◌, Text, codes, ◌===◌, Bool, true, false, not, ◌&&◌, ◌||◌, Option, none, some,
  List, [], ◌∷◌, ◌≡◌, refl, ◌∙◌, arith, if_intro, if◌then◌else◌,
}
use noant.Onboarding.{
  Step, profile, training, whatsapp, complete, same_step, Effect, posts_step, posts_auto_create,
  gets_user, toast_error, Onboarding, begin, leave, status_loaded, industries_loaded, complete_step,
  step_posted, user_refreshed, select_industry, press_continue, handle_auto_create, auto_created,
  press_skip_training, whatsapp_done, at, Event, status, templates, user_got, selects, continues,
  auto_creates, skips_training, ends_whatsapp, finishes, posted, refreshes, auto_creates_done, step,
  run,
}

-- The saves of the profile that a log has.
abbrev pub saves : List Effect → ℕ
saves [] = 0
saves (posts_step profile i ∷ es) = suc (saves es)
saves (posts_step training i ∷ es) = saves es
saves (posts_step whatsapp i ∷ es) = saves es
saves (posts_step complete i ∷ es) = saves es
saves (posts_auto_create t ∷ es) = saves es
saves (gets_user ∷ es) = saves es
saves (toast_error ∷ es) = saves es

-- Neither an answer to the request for the status nor the last button.
abbrev pub stays : Event → Bool
stays (status done) = false
stays finishes = false
stays _ = true

abbrev pub all_stay : List Event → Bool
all_stay [] = true
all_stay (e ∷ es) = stays e && all_stay es

-- The profile is being saved, `k` times so far.
pub record IsSaving (k : ℕ) (s : Onboarding) : Type 0 where
  pub saved : saves s.log ≡ k
  pub busy : s.saving ≡ true

at-IsSaving :
    (k : ℕ) (a : Step) (f : Onboarding → Onboarding) (s : Onboarding)
    → IsSaving k s
    → IsSaving k (f s)
    → IsSaving k (at a f s)
at-IsSaving k a f s i j =
    if_intro (λ t. IsSaving k t) (same_step a s.current_step) (f s) s (λ e. j) (λ e. i)

step-IsSaving :
    (k : ℕ) (e : Event) (s : Onboarding) → stays e ≡ true → IsSaving k s → IsSaving k (step e s)
unfolding step industries_loaded select_industry press_continue handle_auto_create
    press_skip_training whatsapp_done step_posted user_refreshed auto_created complete_step
step-IsSaving k (status done) s h i = ground arith
step-IsSaving k (templates none) s h i = ground arith
step-IsSaving k (templates (some is)) s h i = ground arith
step-IsSaving k (user_got a) s h i = record { saved = i.saved; busy = i.busy }
step-IsSaving k (selects id) s h i = at-IsSaving k profile (select_industry id) s i (ground arith)
step-IsSaving k continues s h i = at-IsSaving k profile press_continue s i (ground arith)
step-IsSaving k auto_creates s h i = at-IsSaving k training handle_auto_create s i (ground arith)
step-IsSaving k skips_training s h i = at-IsSaving k training press_skip_training s i (ground arith)
step-IsSaving k ends_whatsapp s h i = at-IsSaving k whatsapp whatsapp_done s i (ground arith)
step-IsSaving k finishes s h i = ground arith
step-IsSaving k (posted a true) s h i = ground arith
step-IsSaving k (posted a false) s h i = ground arith
step-IsSaving k (refreshes a answer) s h i = ground arith
step-IsSaving k (auto_creates_done true) s h i = ground arith
step-IsSaving k (auto_creates_done false) s h i = ground arith

run-IsSaving :
    (k : ℕ) (es : List Event) (s : Onboarding)
    → all_stay es ≡ true
    → IsSaving k s
    → IsSaving k (run es s)
unfolding run
run-IsSaving k [] s h i = i
run-IsSaving k (e ∷ es) s h i =
    run-IsSaving k es (step e s) (ground arith) (step-IsSaving k e s (ground arith) i)

press_continue-IsSaving :
    (id : Text) (s : Onboarding)
    → (id === []) ≡ false
    → s.saving ≡ false
    → IsSaving (saves s.log + 1) (press_continue (select_industry id s))
unfolding press_continue select_industry complete_step
press_continue-IsSaving id s h b = ground arith

-- When an industry is chosen, `Continue` is pressed and the save fails, the profile is not saved
-- again, however often an industry is chosen and the button pressed, for as long as the page is
-- neither told the status nor left: `saving` is never reset.
pub saves-run-failed :
    (id : Text) (s : Onboarding)
    → (id === []) ≡ false
    → s.saving ≡ false
    → (es : List Event) → all_stay es ≡ true
    → saves ((run es (step_posted profile false (press_continue (select_industry id s)))).log)
      ≡ saves s.log + 1
unfolding step_posted step
saves-run-failed id s h b es a =
    let t = press_continue (select_industry id s) in
    let i =
      step-IsSaving (saves s.log + 1) (posted profile false) t refl
        (press_continue-IsSaving id s h b) in
    (run-IsSaving (saves s.log + 1) es (step_posted profile false t) a i).saved
