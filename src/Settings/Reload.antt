-- ===== src/Settings/Reload.antt =====
-- The theme when the program is loaded again.
mod Tests
use noant.Base.{
  Text, codes, ◌===◌, Bool, true, false, not, ◌&&◌, Option, none, some, List, [], ◌∷◌, ◌≡◌, refl,
  arith, if◌then◌else◌,
}
use noant.Settings.{
  Theme, light, dark, system, Language, Appearance, apply_theme, choose_language, Choice, applies,
  chooses, run, is_dark, init_theme, toggle_theme, Act, choice, toggles, act, run_acts,
}

abbrev pub is_chosen : Option Text → Bool
is_chosen none = false
is_chosen (some t) = true

-- The document has just one class, that of the stored theme, if a theme is stored.
pub record IsShown (p : Bool) (s : Appearance) : Type 0 where
  pub in_dark : is_chosen s.stored_theme ≡ true → s.has_dark ≡ is_dark p s.stored_theme
  pub in_light : is_chosen s.stored_theme ≡ true → s.has_light ≡ not (is_dark p s.stored_theme)

act-IsShown : (p : Bool) (a : Act) (s : Appearance) → IsShown p s → IsShown p (act a s)
unfolding act apply_theme choose_language is_dark run toggle_theme
act-IsShown p (choice (applies light)) s i = record { in_dark = λ h. refl; in_light = λ h. refl }
act-IsShown p (choice (applies dark)) s i = record { in_dark = λ h. refl; in_light = λ h. refl }
act-IsShown p (choice (applies system)) s i = ground arith
act-IsShown p (choice (chooses l)) s i = record { in_dark = i.in_dark; in_light = i.in_light }
act-IsShown p toggles s i = ground arith

run_acts-IsShown :
    (p : Bool) (rs : List Act) (s : Appearance) → IsShown p s → IsShown p (run_acts rs s)
unfolding run_acts
run_acts-IsShown p [] s i = i
run_acts-IsShown p (a ∷ rs) s i = run_acts-IsShown p rs (act a s) (act-IsShown p a s i)

init_theme-IsShown : (p : Bool) (s : Appearance) → IsShown p (init_theme p s)
unfolding init_theme
init_theme-IsShown p s = ground arith

reload_lem :
    (p : Bool) (s : Appearance)
    → is_chosen s.stored_theme ≡ true
    → IsShown p s
    → ((init_theme p s).has_dark ≡ s.has_dark) × ((init_theme p s).has_light ≡ s.has_light)
unfolding init_theme
reload_lem p s h i = (ground arith, ground arith)

-- Whatever is in the storage when the program is loaded, and whatever is chosen in the settings and
-- toggled in the header then, the next load gives the document the classes that it has, if a theme is
-- stored at the end.
pub init_theme-run_acts :
    (p : Bool) (rs : List Act) (s : Appearance)
    → is_chosen ((run_acts rs (init_theme p s)).stored_theme) ≡ true
    → let t = run_acts rs (init_theme p s) in
      ((init_theme p t).has_dark ≡ t.has_dark) × ((init_theme p t).has_light ≡ t.has_light)
init_theme-run_acts p rs s h =
    reload_lem p (run_acts rs (init_theme p s)) h
      (run_acts-IsShown p rs (init_theme p s) (init_theme-IsShown p s))
