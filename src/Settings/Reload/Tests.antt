-- ===== src/Settings/Reload/Tests.antt =====
-- A theme that is chosen and toggled.
use noant.Base.{false, true, none, List, [], ◌∷◌, ◌≡◌, refl}
use noant.Settings.{Appearance, light, applies, Act, choice, toggles, init_theme, run_acts}
use noant.Settings.Reload.{init_theme-run_acts}

abbrev first : Appearance
first = record {
  theme = light;
  language = [];
  has_dark = false;
  has_light = false;
  stored_theme = none;
  stored_language = none;
}

abbrev acts : List Act
acts = toggles ∷ choice (applies light) ∷ toggles ∷ []

init_theme-run_acts_test :
    let t = run_acts acts (init_theme true first) in
    ((init_theme true t).has_dark ≡ t.has_dark) × ((init_theme true t).has_light ≡ t.has_light)
unfolding run_acts
init_theme-run_acts_test = init_theme-run_acts true acts first refl
