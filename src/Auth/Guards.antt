-- ===== src/Auth/Guards.antt =====
-- The redirections of the two guards.
mod Tests
use noant.Base.{
  Text, codes, Bool, true, false, not, ◌&&◌, Option, none, some, ◌≡◌, refl, arith, if_intro,
  Option-cases, inl, inr, starts_with, if◌then◌else◌,
}
use noant.Auth.{
  Auth, User, Shown, skeleton, children, navigate, needs_onboarding, protected_route, guest_route,
  is_guest_path, visit,
}

-- A redirection, followed with the same answer about the user.
abbrev pub follow : Auth → Shown → Shown
follow a skeleton = skeleton
follow a children = children
follow a (navigate path) = visit path a

abbrev pub is_navigate : Shown → Bool
is_navigate skeleton = false
is_navigate children = false
is_navigate (navigate path) = true

-- The three pages that are the targets.
login_lem : (a : Auth) → a.user ≡ none → is_navigate (visit (codes "/login") a) ≡ false
unfolding visit
login_lem a h = ground arith

onboarding_lem :
    (a : Auth) (u : User) → a.user ≡ some u → is_navigate (visit (codes "/onboarding") a) ≡ false
unfolding visit
onboarding_lem a u h = ground arith

dashboard_lem :
    (a : Auth) (u : User)
    → a.user ≡ some u
    → is_navigate (follow a (visit (codes "/dashboard") a)) ≡ false
unfolding visit
dashboard_lem a u h = ground (arith, onboarding_lem a u h)

protected_lem : (path : Text) (a : Auth) → is_navigate (follow a (protected_route path a)) ≡ false
unfolding protected_route
protected_lem path a = elim (Option-cases a.user) [
  | inl h ↦ ground (arith, login_lem a h)
  | inr (u, h) ↦ ground (arith, onboarding_lem a u h)
]

guest_lem : (a : Auth) → is_navigate (follow a (follow a (guest_route a))) ≡ false
unfolding guest_route
guest_lem a = elim (Option-cases a.user) [
  | inl h ↦ ground arith
  | inr (u, h) ↦ ground (arith, dashboard_lem a u h)
]

follow_lem : (a : Auth) (s : Shown) → is_navigate s ≡ false → is_navigate (follow a s) ≡ false
follow_lem a skeleton h = refl
follow_lem a children h = refl
follow_lem a (navigate path) h = ground arith

-- On any guarded path, whatever is known of the user, a page or the skeleton is shown after at most
-- two redirections: the guards do not send a user round in a circle.
pub is_navigate-follow :
    (path : Text) (a : Auth) → is_navigate (follow a (follow a (visit path a))) ≡ false
unfolding visit
is_navigate-follow path a =
    if_intro (λ s. is_navigate (follow a (follow a s)) ≡ false) (is_guest_path path) (guest_route a)
      (protected_route path a) (λ e. guest_lem a)
      (λ e. follow_lem a (follow a (protected_route path a)) (protected_lem path a))

-- A user who has not finished the onboarding is sent there from the dashboard.
pub visit-dashboard :
    (a : Auth) (u : User)
    → a.loading ≡ false
    → a.user ≡ some u
    → needs_onboarding u ≡ true
    → visit (codes "/dashboard") a ≡ navigate (codes "/onboarding")
unfolding visit
visit-dashboard a u l h n = ground arith
