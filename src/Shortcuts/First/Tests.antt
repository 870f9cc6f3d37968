-- ===== src/Shortcuts/First/Tests.antt =====
-- Two shortcuts of one key.
use noant.Base.{codes, true, false, List, [], ◌∷◌}
use noant.Shortcuts.{Shortcut, Press, handle_key_down}
use noant.Shortcuts.First.{IsFirst, handle_key_down-IsFirst}

abbrev shortcuts : List Shortcut
shortcuts =
    record { key = codes "k"; ctrl = true; meta = false; shift = true; alt = false }
    ∷ record { key = codes "k"; ctrl = true; meta = false; shift = false; alt = false }
    ∷ []

abbrev pressed : Press
pressed = record {
  key = codes "k";
  ctrl_key = false;
  meta_key = true;
  shift_key = false;
  alt_key = false;
}

handle_key_down-IsFirst_test :
    IsFirst (λ t. t) pressed shortcuts (handle_key_down (λ t. t) shortcuts pressed)
handle_key_down-IsFirst_test = handle_key_down-IsFirst (λ t. t) pressed shortcuts
