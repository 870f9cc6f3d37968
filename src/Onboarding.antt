-- ===== src/Onboarding.antt =====
-- The page of frontend/src/app/(dashboard)/onboarding/page.tsx with its profile and its training step,
-- and the guard above it, which stays mounted and has a copy of the user of its own.
pub mod Stuck
pub mod Stale
pub mod Whatsapp
use noant.Base.{
  Text, codes, ◌===◌, Bool, true, false, not, ◌&&◌, ◌||◌, Option, none, some, List, [], ◌∷◌,
  if◌then◌else◌,
}
use noant.Auth.{
  User, Auth, mounted, Answer, refreshed, fetched, Shown, skeleton, children, navigate, visit,
}

pub data Step : Type 0 where
  profile training whatsapp complete : Step

abbrev pub same_step : Step → Step → Bool
same_step profile profile = true
same_step training training = true
same_step whatsapp whatsapp = true
same_step complete complete = true
same_step _ _ = false

abbrev pub has_step : Step → List Step → Bool
has_step a [] = false
has_step a (b ∷ bs) = same_step a b || has_step a bs

pub data Effect : Type 0 where
  posts_step : Step → (industry : Text) → Effect
  posts_auto_create : Text → Effect
  gets_user toast_error : Effect

-- `industries` has the ids of the templates; `user` is the page's `useAuth`, `guard` that of
-- ProtectedRoute. The steps' own state is last.
pub record Onboarding : Type 0 where
  pub path : Text
  pub guard : Auth
  pub auth : Auth
  pub current_step : Step
  pub loading : Bool
  pub industries : List Text
  pub completed : List Step
  pub industry_error : Bool
  pub log : List Effect
  pub selected_industry : Text
  pub saving : Bool
  pub creating : Bool
  pub created : Bool
  pub auto_create_error : Bool

abbrev pub does : Effect → Onboarding → Onboarding
does e s = record s { log = e ∷ s.log }

-- A page that is mounted under a guard; the user is not there yet, so no industry is chosen.
abbrev pub begin : Auth → Onboarding
begin guard = record {
  path = codes "/onboarding";
  guard = guard;
  auth = mounted;
  current_step = profile;
  loading = false;
  industries = [];
  completed = [];
  industry_error = false;
  log = [];
  selected_industry = [];
  saving = false;
  creating = false;
  created = false;
  auto_create_error = false;
}

-- `navigate('/dashboard')`: the guard shows the dashboard, or sends back to a page that is mounted
-- anew.
pub leave : Onboarding → Onboarding
leave s = elim (visit (codes "/dashboard") s.guard) [
  | skeleton ↦ record s { path = codes "/dashboard" }
  | children ↦ record s { path = codes "/dashboard" }
  | navigate p ↦ record (begin s.guard) { path = p }
]

-- The answer to the request for the status, with the steps that are done.
pub status_loaded : List Step → Onboarding → Onboarding
unfolding leave
status_loaded done s =
    if has_step complete done
    then leave (record s { completed = done })
    else if has_step whatsapp done
    then record s { completed = done; current_step = complete }
    else if has_step training done
    then record s { completed = done; current_step = whatsapp }
    else if has_step profile done
    then record s { completed = done; current_step = training }
    else record s { completed = done }

-- The answer to the request for the templates.
pub industries_loaded : Option (List Text) → Onboarding → Onboarding
industries_loaded none s = record s { industry_error = true }
industries_loaded (some is) s = record s { industries = is; industry_error = false }

-- `completeStep` up to its request; what follows the request; and what follows `refreshUser`, with
-- `advanceTo`.
pub complete_step : Step → Text → Onboarding → Onboarding
complete_step step industry s = does (posts_step step industry) (record s { loading = true })

pub step_posted : Step → Bool → Onboarding → Onboarding
step_posted step false s = does toast_error (record s { loading = false })
step_posted step true s = does gets_user (record s { completed = step ∷ s.completed })

pub advance_to : Step → Onboarding → Onboarding
advance_to step s = record s { current_step = step }

-- The step behind a step; the page completes only the first three.
abbrev pub next_step : Step → Step
next_step profile = training
next_step training = whatsapp
next_step whatsapp = complete
next_step complete = complete

pub user_refreshed : Step → Answer → Onboarding → Onboarding
unfolding advance_to
user_refreshed step answer s =
    advance_to (next_step step) (record s { auth = refreshed answer s.auth; loading = false })

-- The profile step. Its button is disabled without an industry and while it saves.
pub select_industry : Text → Onboarding → Onboarding
select_industry id s = record s { selected_industry = id }

pub press_continue : Onboarding → Onboarding
unfolding complete_step
press_continue s =
    if s.selected_industry === [] || s.saving
    then s
    else complete_step profile s.selected_industry (record s { saving = true })

-- The training step. Its button is there for a user whose industry has a template.
abbrev pub user_industry : Onboarding → Text
user_industry s = elim s.auth.user [ none ↦ [] | some u ↦ u.industry ]

abbrev pub has_text : Text → List Text → Bool
has_text t [] = false
has_text t (u ∷ us) = t === u || has_text t us

pub handle_auto_create : Onboarding → Onboarding
handle_auto_create s =
    if not (has_text (user_industry s) s.industries) || s.creating || s.created
    then s
    else if user_industry s === []
    then s
    else does (posts_auto_create (user_industry s))
        (record s { creating = true; auto_create_error = false })

pub auto_created : Bool → Onboarding → Onboarding
auto_created true s = record s { created = true; creating = false }
auto_created false s = record s { auto_create_error = true; creating = false }

pub press_skip_training : Onboarding → Onboarding
unfolding complete_step
press_skip_training s = if s.loading then s else complete_step training [] s

-- `onComplete` and `onSkip` of the WhatsApp step.
pub whatsapp_done : Onboarding → Onboarding
unfolding complete_step
whatsapp_done s = complete_step whatsapp [] s

-- What happens to the page. The buttons are there in their step only; an answer comes at any time.
pub data Event : Type 0 where
  status : List Step → Event
  templates : Option (List Text) → Event
  user_got : Answer → Event
  selects : Text → Event
  continues auto_creates skips_training ends_whatsapp finishes : Event
  posted : Step → Bool → Event
  refreshes : Step → Answer → Event
  auto_creates_done : Bool → Event

abbrev pub at : Step → (Onboarding → Onboarding) → Onboarding → Onboarding
at step f s = if same_step step s.current_step then f s else s

pub step : Event → Onboarding → Onboarding
step (status done) s = status_loaded done s
step (templates t) s = industries_loaded t s
step (user_got a) s = record s { auth = fetched a s.auth }
step (selects id) s = at profile (select_industry id) s
step continues s = at profile press_continue s
step auto_creates s = at training handle_auto_create s
step skips_training s = at training press_skip_training s
step ends_whatsapp s = at whatsapp whatsapp_done s
step finishes s = at complete leave s
step (posted a ok) s = step_posted a ok s
step (refreshes a answer) s = user_refreshed a answer s
step (auto_creates_done ok) s = auto_created ok s

pub run : List Event → Onboarding → Onboarding
unfolding step
run [] s = s
run (e ∷ es) s = run es (step e s)
