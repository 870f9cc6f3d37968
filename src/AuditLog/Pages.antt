-- ===== src/AuditLog/Pages.antt =====
-- The offset of the tab.
mod Tests
use noant.Base.{
  ℕ, ◌+◌, ◌-◌, ◌*◌, ◌/◌, ◌%◌, ◌≤◌, ◌<◌, ◌==◌, leb, min, Text, ◌===◌, Bool, true, false, ◌&&◌, ◌||◌,
  List, [], ◌∷◌, ◌≡◌, refl, arith, if_intro, if◌then◌else◌,
}
use noant.AuditLog.{
  Tab, limit, fetch_logs, set_filter, press_chip, press_previous, press_next, first_of, last_of,
  page_of, total_pages,
}

-- What is pressed and typed between two answers.
pub data Event : Type 0 where
  types chip : Text → Event
  previous next : Event

pub step : Event → Tab → Tab
step (types t) s = set_filter t s
step (chip t) s = press_chip t s
step previous s = press_previous s
step next s = press_next s

pub run : List Event → Tab → Tab
unfolding step
run [] s = s
run (e ∷ es) s = run es (step e s)

-- The offset is that of a page of the `n` entries.
pub record IsPaged (n : ℕ) (s : Tab) : Type 0 where
  pub kept : s.total ≡ n
  pub whole : s.offset % 20 ≡ 0
  pub within : s.offset ≤ n - 1

set_filter-IsPaged : (n : ℕ) (t : Text) (s : Tab) → IsPaged n s → IsPaged n (set_filter t s)
unfolding set_filter fetch_logs
set_filter-IsPaged n t s i = ground arith

step-IsPaged : (n : ℕ) (e : Event) (s : Tab) → IsPaged n s → IsPaged n (step e s)
unfolding step press_chip press_previous press_next fetch_logs
step-IsPaged n (types t) s i = set_filter-IsPaged n t s i
step-IsPaged n (chip t) s i = set_filter-IsPaged n (if s.action_filter === t then [] else t) s i
step-IsPaged n previous s i = ground arith
step-IsPaged n next s i = ground arith

run-IsPaged : (n : ℕ) (es : List Event) (s : Tab) → IsPaged n s → IsPaged n (run es s)
unfolding run
run-IsPaged n [] s i = i
run-IsPaged n (e ∷ es) s i = run-IsPaged n es (step e s) (step-IsPaged n e s i)

-- The numbers between the buttons.
pub record IsShown (s : Tab) : Type 0 where
  pub nonempty : first_of s ≤ last_of s
  pub covered : last_of s ≤ s.total
  pub one_of : page_of s ≤ total_pages s
  pub first : first_of s ≡ (page_of s - 1) * 20 + 1

shown_lem : (n : ℕ) (s : Tab) → 1 ≤ n → IsPaged n s → IsShown s
unfolding first_of last_of page_of total_pages
shown_lem n s h i = record {
  nonempty = omega arith;
  covered = omega arith;
  one_of = omega arith;
  first = omega arith;
}

-- From the first page of a log of `n` entries, not none, however the buttons and the filters are used
-- before the next answer, the range that is shown is not empty and within the log, begins with the
-- page that is shown, and that page is one of the pages.
pub run-IsShown :
    (n : ℕ) (es : List Event) (s : Tab) → 1 ≤ n → s.total ≡ n → s.offset ≡ 0 → IsShown (run es s)
run-IsShown n es s h t o = shown_lem n (run es s) h (run-IsPaged n es s (ground arith))
