-- ===== src/Auth.antt =====
-- The hook of frontend/src/hooks/useAuth.ts, the guards of frontend/src/components/auth and the paths
-- that they guard in frontend/src/App.tsx. Each use of the hook has a state of its own.
pub mod Guards
use noant.Base.{
  ℕ, ◌+◌, ◌==◌, Text, codes, ◌===◌, starts_with, Bool, true, false, not, ◌&&◌, ◌||◌, Option, none,
  some, List, [], ◌∷◌, if◌then◌else◌,
}

-- What is read of a user here; a missing status is empty.
pub record User : Type 0 where
  pub onboarding_status : Text
  pub industry : Text

-- `cleared` counts the calls of `clearAuth`.
pub record Auth : Type 0 where
  pub user : Option User
  pub loading : Bool
  pub cleared : ℕ

abbrev pub mounted : Auth
mounted = record { user = none; loading = true; cleared = 0 }

-- What `getCurrentUser` comes to; `failed` has the status of the error.
pub data Answer : Type 0 where
  got : User → Answer
  failed : ℕ → Answer

-- The answer to the effect of the hook, and that to `refreshUser`.
pub fetched : Answer → Auth → Auth
fetched (got u) a = record a { user = some u; loading = false }
fetched (failed status) a = record a {
  user = none;
  loading = false;
  cleared = if status == 401 then a.cleared + 1 else a.cleared;
}

pub refreshed : Answer → Auth → Auth
refreshed (got u) a = record a { user = some u }
refreshed (failed status) a = a

pub data Shown : Type 0 where
  skeleton children : Shown
  navigate : Text → Shown

unfoldable pub needs_onboarding : User → Bool
needs_onboarding u =
    not (u.onboarding_status === []) && not (u.onboarding_status === codes "complete")

pub protected_route : Text → Auth → Shown
unfolding needs_onboarding
protected_route path a = if a.loading then skeleton else elim a.user [
  | none ↦ navigate (codes "/login")
  | some u ↦
      if needs_onboarding u && not (starts_with (codes "/onboarding") path)
      then navigate (codes "/onboarding")
      else children
]

pub guest_route : Auth → Shown
guest_route a =
    if a.loading
    then skeleton
    else elim a.user [ none ↦ children | some u ↦ navigate (codes "/dashboard") ]

-- The paths under GuestRoute.
pub is_guest_path : Text → Bool
is_guest_path path =
    path === codes "/login"
    || path === codes "/signup"
    || path === codes "/forgot-password"
    || path === codes "/reset-password"
    || path === codes "/verify-email"

-- A path of the table that is under one of the guards.
pub visit : Text → Auth → Shown
unfolding is_guest_path protected_route guest_route
visit path a = if is_guest_path path then guest_route a else protected_route path a
