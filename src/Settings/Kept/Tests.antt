-- ===== src/Settings/Kept/Tests.antt =====
-- A language and a theme over what another version left.
use noant.Base.{codes, false, true, some, List, [], ◌∷◌, refl}
use noant.Settings.{Appearance, light, system, ha, Choice, applies, chooses, mount_appearance, run}
use noant.Settings.Kept.{IsKept, run-mount_appearance-IsKept}

abbrev left_over : Appearance
left_over = record {
  theme = light;
  language = [];
  has_dark = true;
  has_light = false;
  stored_theme = some (codes "blue");
  stored_language = some [];
}

abbrev two_choices : List Choice
two_choices = chooses ha ∷ applies system ∷ applies light ∷ []

run-mount_appearance-IsKept_test : IsKept (run two_choices (mount_appearance left_over))
run-mount_appearance-IsKept_test = run-mount_appearance-IsKept two_choices left_over refl
