-- ===== src/AuditLog/Pages/Tests.antt =====
-- A log of 35 entries, and a press too many.
use noant.Base.{codes, false, List, [], ◌∷◌, refl, arith}
use noant.AuditLog.{Tab}
use noant.AuditLog.Pages.{Event, next, previous, IsShown, run, run-IsShown}

abbrev log_of_35 : Tab
log_of_35 = record {
  logs = [];
  total = 35;
  loading = false;
  offset = 0;
  action_filter = codes "login";
  asked = [];
}

abbrev presses : List Event
presses = next ∷ next ∷ previous ∷ next ∷ []

run-IsShown_test : IsShown (run presses log_of_35)
run-IsShown_test = run-IsShown 35 presses log_of_35 (omega arith) refl refl
