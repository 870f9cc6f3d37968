-- ===== src/Settings.antt =====
-- Two tabs of frontend/src/app/(dashboard)/settings/page.tsx: the appearance and the password.
pub mod Kept
pub mod Password
pub mod Reload
use noant.Base.{
  ℕ, ◌+◌, ltb, Text, codes, ◌===◌, Bool, true, false, not, ◌&&◌, ◌||◌, Option, none, some, List, [],
  ◌∷◌, length, if◌then◌else◌,
}

pub data Theme : Type 0 where
  light dark system : Theme

pub data Language : Type 0 where
  en yo ha ig hi pt : Language

pub code : Language → Text
code en = codes "en"
code yo = codes "yo"
code ha = codes "ha"
code ig = codes "ig"
code hi = codes "hi"
code pt = codes "pt"

-- `has_dark` and `has_light` are the classes of the document; `stored_theme` and `stored_language`
-- are in local storage.
pub record Appearance : Type 0 where
  pub theme : Theme
  pub language : Text
  pub has_dark : Bool
  pub has_light : Bool
  pub stored_theme : Option Text
  pub stored_language : Option Text

pub read_theme : Option Text → Theme
read_theme none = system
read_theme (some t) =
    if t === codes "dark" then dark else if t === codes "light" then light else system

-- `localStorage.getItem('noant_language') || 'en'`
pub read_language : Option Text → Text
read_language none = codes "en"
read_language (some []) = codes "en"
read_language (some (c ∷ cs)) = c ∷ cs

pub mount_appearance : Appearance → Appearance
unfolding read_theme read_language
mount_appearance s = record s {
  theme = read_theme s.stored_theme;
  language = read_language s.stored_language;
}

pub apply_theme : Theme → Appearance → Appearance
apply_theme dark s = record s {
  theme = dark;
  has_dark = true;
  has_light = false;
  stored_theme = some (codes "dark");
}
apply_theme light s = record s {
  theme = light;
  has_light = true;
  has_dark = false;
  stored_theme = some (codes "light");
}
apply_theme system s = record s {
  theme = system;
  has_dark = false;
  has_light = false;
  stored_theme = none;
}

pub choose_language : Language → Appearance → Appearance
unfolding code
choose_language l s = record s { language = code l; stored_language = some (code l) }

pub data Choice : Type 0 where
  applies : Theme → Choice
  chooses : Language → Choice

pub run : List Choice → Appearance → Appearance
unfolding apply_theme choose_language
run [] s = s
run (applies t ∷ es) s = run es (apply_theme t s)
run (chooses l ∷ es) s = run es (choose_language l s)

-- `initTheme` of frontend/src/main.tsx, which is run when the program is loaded, and `toggleTheme` of
-- frontend/src/components/layout/Header.tsx.
pub is_dark : (prefers_dark : Bool) → Option Text → Bool
is_dark prefers_dark none = prefers_dark
is_dark prefers_dark (some []) = prefers_dark
is_dark prefers_dark (some (c ∷ cs)) = c ∷ cs === codes "dark"

pub init_theme : (prefers_dark : Bool) → Appearance → Appearance
unfolding is_dark
init_theme prefers_dark s =
    if is_dark prefers_dark s.stored_theme
    then record s { has_dark = true; has_light = false }
    else record s { has_light = true; has_dark = false }

pub toggle_theme : Appearance → Appearance
toggle_theme s =
    if s.has_dark
    then record s { has_dark = false; has_light = true; stored_theme = some (codes "light") }
    else record s { has_light = false; has_dark = true; stored_theme = some (codes "dark") }

-- What changes the appearance while the program runs.
pub data Act : Type 0 where
  choice : Choice → Act
  toggles : Act

pub act : Act → Appearance → Appearance
unfolding toggle_theme run
act (choice c) s = run (c ∷ []) s
act toggles s = toggle_theme s

pub run_acts : List Act → Appearance → Appearance
unfolding act
run_acts [] s = s
run_acts (a ∷ rs) s = run_acts rs (act a s)

-- The form of the password.
pub data Effect : Type 0 where
  posts_change : (current new : Text) → Effect
  toast_success toast_error : Text → Effect

pub record Security : Type 0 where
  pub current_password : Text
  pub new_password : Text
  pub confirm_password : Text
  pub saving : Bool
  pub log : List Effect

abbrev pub does : Effect → Security → Security
does e s = record s { log = e ∷ s.log }

-- `handleChange` up to its request.
pub handle_change : Security → Security
handle_change s =
    if not (s.new_password === s.confirm_password)
    then does (toast_error (codes "New passwords do not match")) s
    else if ltb (length s.new_password) 8
    then does (toast_error (codes "Password must be at least 8 characters")) s
    else does (posts_change s.current_password s.new_password) (record s { saving = true })

-- The button is disabled while it saves and without the two passwords.
pub press_update : Security → Security
unfolding handle_change
press_update s =
    if s.saving || s.current_password === [] || s.new_password === [] then s else handle_change s

pub changed : Bool → Security → Security
changed true s = record (does (toast_success (codes "Password changed successfully")) s) {
  current_password = [];
  new_password = [];
  confirm_password = [];
  saving = false;
}
changed false s =
    record (does (toast_error (codes "Failed to change password. Check your current password."))
      s) { saving = false }

pub data Event : Type 0 where
  types : (current new confirm : Text) → Event
  presses : Event
  answers : Bool → Event

pub step : Event → Security → Security
unfolding press_update changed
step (types a b c) s = record s { current_password = a; new_password = b; confirm_password = c }
step presses s = press_update s
step (answers ok) s = if s.saving then changed ok s else s

pub run_form : List Event → Security → Security
unfolding step
run_form [] s = s
run_form (e ∷ es) s = run_form es (step e s)
