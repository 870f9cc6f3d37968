-- ===== src/Settings/Password/Tests.antt =====
-- A password that is sent once, though the button is pressed twice.
use noant.Base.{codes, false, true, List, [], ◌∷◌, refl}
use noant.Settings.{Security, Event, types, presses, answers, run_form}
use noant.Settings.Password.{IsSent, answered, run_form-initial-IsSent}

abbrev empty_form : Security
empty_form = record {
  current_password = [];
  new_password = [];
  confirm_password = [];
  saving = false;
  log = [];
}

abbrev change : List Event
change =
    types (codes "old") (codes "long enough") (codes "long enough")
    ∷ presses
    ∷ presses
    ∷ answers true
    ∷ []

run_form-initial-IsSent_test : IsSent (answered change empty_form) (run_form change empty_form)
run_form-initial-IsSent_test = run_form-initial-IsSent change empty_form refl refl
