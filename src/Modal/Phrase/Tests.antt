-- ===== src/Modal/Phrase/Tests.antt =====
-- A phrase that is typed wrong, then right.
use noant.Base.{codes, true, none, List, [], ◌∷◌}
use noant.Modal.{Options, Event, show, confirm, type_text, settle, run, closed}
use noant.Modal.Phrase.{IsSafe, run-closed-IsSafe}

abbrev wipe : Options
wipe = record {
  name = 1;
  require_type_confirm = true;
  confirm_phrase = codes "RESET";
  close_on_overlay_click = none;
}

abbrev typed : List Event
typed =
    show wipe
    ∷ confirm
    ∷ type_text (codes "RESE")
    ∷ confirm
    ∷ type_text (codes "RESET")
    ∷ confirm
    ∷ settle 0
    ∷ []

run-closed-IsSafe_example : IsSafe (run typed closed)
run-closed-IsSafe_example = run-closed-IsSafe typed
