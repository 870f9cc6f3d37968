-- ===== src/AuditLog.antt =====
-- What is shown of an entry of the audit log, and its pages: AuditLogTab of
-- frontend/src/components/settings/AuditLogTab.tsx, and the colours of admin/src/app/audit-logs/page.tsx.
pub mod Routes
pub mod Labels
pub mod Pages
use noant.Base.{
  ℕ, zero, suc, ◌+◌, ◌-◌, ◌*◌, ◌/◌, ◌==◌, ltb, leb, min, Text, codes, ◌===◌, starts_with, includes,
  slice, Bool, true, false, not, ◌&&◌, ◌||◌, Option, none, some, List, [], ◌∷◌, if◌then◌else◌,
}
use noant.AuditLog.Routes.{Route, route_labels}

-- The icon goes with the label and the colour.
pub record Info : Type 0 where
  pub label : Text
  pub color : Text

pub record Entry : Type 0 where
  pub key : Text
  pub info : Info

abbrev pub entry : Text → Text → Text → Entry
entry key label color = record { key = key; info = record { label = label; color = color } }

abbrev pub logged_in : Entry
logged_in = entry (codes "user.login.success") (codes "Logged in") (codes "text-emerald-400")

abbrev pub failed_login : Entry
failed_login =
    entry (codes "user.login.failed") (codes "Failed login attempt") (codes "text-red-400")

-- `ACTION_LABELS`
pub more_labels : List Entry
more_labels =
    entry (codes "user.login.failed.email_not_verified") (codes "Login attempt (unverified email)")
      (codes "text-amber-400")
    ∷ entry (codes "user.login.failed.account_locked") (codes "Login attempt (account locked)")
        (codes "text-red-500")
    ∷ entry (codes "user.registered") (codes "Created an account") (codes "text-sky-400")
    ∷ entry (codes "user.logout") (codes "Logged out") (codes "text-zinc-400")
    ∷ entry (codes "user.password_changed") (codes "Changed password") (codes "text-amber-400")
    ∷ entry (codes "user.password_reset") (codes "Reset password") (codes "text-amber-400")
    ∷ entry (codes "user.email_verified") (codes "Verified email") (codes "text-emerald-400")
    ∷ []

pub action_labels : List Entry
unfolding more_labels
action_labels = logged_in ∷ failed_login ∷ more_labels

pub find_action : List Entry → Text → Option Info
find_action [] action = none
find_action (e ∷ es) action =
    let rest = find_action es action in
    if includes e.key action || action === e.key then some e.info else rest

pub has_label : Text → List Route → Bool
has_label t [] = false
has_label t (r ∷ rs) = t === r.label || has_label t rs

pub route_label : Text → List Route → Option Text
route_label t [] = none
route_label t (r ∷ rs) = let rest = route_label t rs in if t === r.path then some r.label else rest

-- `action.indexOf(' ')`, `none` being -1.
pub index_of_space : Text → Option ℕ
index_of_space [] = none
index_of_space (c ∷ cs) =
    let rest = index_of_space cs in
    if c == 32 then some 0 else elim rest [ none ↦ none | some n ↦ some (suc n) ]

abbrev sky : Text → Info
sky label = record { label = label; color = codes "text-sky-400" }

-- The part behind the labels of actions. A route is looked up among the keys that are written there.
pub route_info : Text → Info
unfolding has_label route_label index_of_space
route_info action =
    let other : Info = record { label = action; color = codes "text-secondary" } in
    if has_label action route_labels then sky action else elim (index_of_space action) [
      | none ↦ other
      | some zero ↦ other
      | some (suc n) ↦ elim (route_label (slice (suc n + 1) action) route_labels) [
        | none ↦ other
        | some label ↦ sky label
      ]
    ]

pub get_action_info : Text → Info
unfolding find_action action_labels route_info
get_action_info action = elim (find_action action_labels action) [
  | some i ↦ i
  | none ↦ route_info action
]

-- `getActionColor` of the admin's page.
pub get_action_color : Text → Text
get_action_color action =
    if starts_with (codes "user.login") action
    then codes "text-success"
    else if starts_with (codes "user.registered") action
    then codes "text-brand-sky"
    else if starts_with (codes "user.login.failed") action
    then codes "text-danger"
    else if starts_with (codes "payment") action
    then codes "text-success"
    else if starts_with (codes "conversation") action
    then codes "text-brand-sky"
    else if starts_with (codes "training") action
    then codes "text-warning"
    else codes "text-text-tertiary"

-- `slice(0, n)`
pub take : ℕ → Text → Text
take zero t = []
take (suc n) [] = []
take (suc n) (c ∷ cs) = c ∷ take n cs

pub format_ua : Option Text → Text
unfolding take
format_ua none = codes "Unknown"
format_ua (some []) = codes "Unknown"
format_ua (some (c ∷ cs)) =
    let ua = c ∷ cs in
    if includes (codes "Chrome") ua
    then codes "Chrome"
    else if includes (codes "Firefox") ua
    then codes "Firefox"
    else if includes (codes "Safari") ua
    then codes "Safari"
    else if includes (codes "Edge") ua
    then codes "Edge"
    else take 40 ua

-- The tab: `asked` are the offset and the filter of each request, the newest first.
pub record Asked : Type 0 where
  pub offset : ℕ
  pub action : Text

pub record Tab : Type 0 where
  pub logs : List Text
  pub total : ℕ
  pub loading : Bool
  pub offset : ℕ
  pub action_filter : Text
  pub asked : List Asked

abbrev pub limit : ℕ
limit = 20

pub fetch_logs : Tab → Tab
fetch_logs s = record s {
  loading = true;
  asked = record { offset = s.offset; action = s.action_filter } ∷ s.asked;
}

pub logs_fetched : Option (List Text × ℕ) → Tab → Tab
logs_fetched none s = record s { logs = []; total = 0; loading = false }
logs_fetched (some (ls, n)) s = record s { logs = ls; total = n; loading = false }

-- A filter that is typed, with the effect; one that is the same changes the offset only.
pub set_filter : Text → Tab → Tab
unfolding fetch_logs
set_filter t s =
    if t === s.action_filter && s.offset == 0
    then s
    else fetch_logs (record s { action_filter = t; offset = 0 })

pub press_chip : Text → Tab → Tab
unfolding set_filter
press_chip chip s = set_filter (if s.action_filter === chip then [] else chip) s

-- The buttons are there for more than one page.
pub press_previous : Tab → Tab
unfolding fetch_logs
press_previous s =
    if leb s.total limit || s.offset == 0
    then s
    else fetch_logs (record s { offset = s.offset - limit })

pub press_next : Tab → Tab
unfolding fetch_logs
press_next s =
    if leb s.total limit || leb s.total (s.offset + limit)
    then s
    else fetch_logs (record s { offset = s.offset + limit })

-- What stands between the buttons: the range, and the page of the pages.
pub first_of : Tab → ℕ
first_of s = s.offset + 1

pub last_of : Tab → ℕ
last_of s = min (s.offset + limit) s.total

pub page_of : Tab → ℕ
page_of s = s.offset / limit + 1

-- `Math.ceil(total / limit)`
pub total_pages : Tab → ℕ
total_pages s = (s.total + (limit - 1)) / limit
