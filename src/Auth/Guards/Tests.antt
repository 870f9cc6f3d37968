-- ===== src/Auth/Guards/Tests.antt =====
-- A user who has not finished the onboarding opens the login page.
use noant.Base.{codes, false, some, ◌≡◌}
use noant.Auth.{Auth, visit}
use noant.Auth.Guards.{is_navigate, follow, is_navigate-follow}

abbrev begun : Auth
begun = record {
  user = some (record { onboarding_status = codes "training"; industry = codes "hotel" });
  loading = false;
  cleared = 0;
}

is_navigate-follow_test :
    is_navigate (follow begun (follow begun (visit (codes "/login") begun))) ≡ false
is_navigate-follow_test = is_navigate-follow (codes "/login") begun
