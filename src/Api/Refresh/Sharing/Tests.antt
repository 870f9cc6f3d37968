-- ===== src/Api/Refresh/Sharing/Tests.antt =====
-- Three requests: two that share a refresh, and one that comes at the wrong moment.
use noant.Base.{ℕ, ◌==◌, Bool, false, none, List, [], ◌∷◌, ◌≡◌, refl, arith}
use noant.Api.Refresh.{pending, expired, Module, unauthorized, resumed}
use noant.Api.Refresh.Sharing.{Turn, arrives, resumes, phase-resumed-unauthorized}

abbrev start : Module
start = record {
  is_refreshing = false;
  refresh_promise = none;
  refreshes = 0;
  phase = λ i. pending;
}

abbrev outcome : ℕ → Bool
outcome p = p == 0

abbrev shared : List Turn
shared = arrives 0 ∷ arrives 1 ∷ resumes 1 ∷ resumes 0 ∷ []

phase-resumed-unauthorized_test :
    (resumed outcome 1 (unauthorized 1 (unauthorized 0 start))).phase 1 ≡ expired none
phase-resumed-unauthorized_test =
    phase-resumed-unauthorized outcome 0 1 start refl refl refl refl (omega arith)
