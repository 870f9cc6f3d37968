-- ===== src/Settings/Kept.antt =====
-- The appearance when the tab is opened again.
mod Tests
use noant.Base.{
  Text, codes, Bool, true, false, ◌&&◌, Option, none, some, List, [], ◌∷◌, ◌≡◌, refl, arith,
}
use noant.Settings.{
  Theme, light, dark, system, Language, en, yo, ha, ig, hi, pt, code, Appearance, read_theme,
  read_language, mount_appearance, apply_theme, choose_language, Choice, applies, chooses, run,
}

-- The choices are those in the storage, and the document does not have both classes.
pub record IsKept (s : Appearance) : Type 0 where
  pub theme : read_theme s.stored_theme ≡ s.theme
  pub language : read_language s.stored_language ≡ s.language
  pub one_class : (s.has_dark && s.has_light) ≡ false

apply_theme-IsKept : (t : Theme) (s : Appearance) → IsKept s → IsKept (apply_theme t s)
unfolding apply_theme read_theme
apply_theme-IsKept light s i = record { theme = refl; language = i.language; one_class = refl }
apply_theme-IsKept dark s i = record { theme = refl; language = i.language; one_class = refl }
apply_theme-IsKept system s i = record { theme = refl; language = i.language; one_class = refl }

read_language-code : (l : Language) → read_language (some (code l)) ≡ code l
unfolding read_language code
read_language-code en = refl
read_language-code yo = refl
read_language-code ha = refl
read_language-code ig = refl
read_language-code hi = refl
read_language-code pt = refl

choose_language-IsKept : (l : Language) (s : Appearance) → IsKept s → IsKept (choose_language l s)
unfolding choose_language
choose_language-IsKept l s i = record {
  theme = i.theme;
  language = read_language-code l;
  one_class = i.one_class;
}

run-IsKept : (es : List Choice) (s : Appearance) → IsKept s → IsKept (run es s)
unfolding run
run-IsKept [] s i = i
run-IsKept (applies t ∷ es) s i = run-IsKept es (apply_theme t s) (apply_theme-IsKept t s i)
run-IsKept (chooses l ∷ es) s i = run-IsKept es (choose_language l s) (choose_language-IsKept l s i)

-- Whatever is in the storage when the tab is opened and whatever is chosen then, the storage gives
-- back the theme and the language that are shown, and the document never has both classes if it did
-- not before.
pub run-mount_appearance-IsKept :
    (es : List Choice) (s : Appearance)
    → (s.has_dark && s.has_light) ≡ false
    → IsKept (run es (mount_appearance s))
unfolding mount_appearance
run-mount_appearance-IsKept es s h =
    run-IsKept es (mount_appearance s) (record { theme = refl; language = refl; one_class = h })
