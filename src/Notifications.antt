-- ===== src/Notifications.antt =====
-- The page of the notifications: frontend/src/app/(dashboard)/notifications/page.tsx. The texts of dates
-- are parameters.
pub mod Groups
use noant.Base.{
  ℕ, Text, codes, ◌===◌, length, keep_if, map, Bool, true, false, not, Option, none, some, List, [],
  ◌∷◌, ◌++◌, if◌then◌else◌,
}

-- `link` is empty where there is none.
pub record Notification : Type 0 where
  pub id : Text
  pub link : Text
  pub is_read : Bool
  pub created_at : Text

pub data Filter : Type 0 where
  everything unread : Filter

pub data Effect : Type 0 where
  asks posts_read_all refreshes_alerts : Effect
  posts_read navigates : Text → Effect
  toast_success toast_error : Text → Effect

-- `log` has the newest effect first.
pub record Page : Type 0 where
  pub notifications : List Notification
  pub loading : Bool
  pub filter : Filter
  pub log : List Effect

abbrev pub does : Effect → Page → Page
does e s = record s { log = e ∷ s.log }

-- `{ ...n, is_read: true }`
abbrev pub as_read : Notification → Notification
as_read n = record n { is_read = true }

-- `load` up to its `await`, and behind it; `none` is a request that threw.
pub load : Page → Page
load s = does asks (record s { loading = true })

pub loaded : Option (List Notification) → Page → Page
loaded none s =
    does (toast_error (codes "Failed to load notifications")) (record s { loading = false })
loaded (some ns) s = record s { notifications = ns; loading = false }

pub mark_read : Text → Page → Page
mark_read id s = does (posts_read id) s

-- `true` is a request that succeeded.
pub read_marked : Text → Bool → Page → Page
read_marked id true s =
    does refreshes_alerts
      (record s { notifications = map (λ n. if n.id === id then as_read n else n) s.notifications })
read_marked id false s = s

pub mark_all_read : Page → Page
mark_all_read s = does posts_read_all s

pub all_marked : Bool → Page → Page
all_marked true s =
    does (toast_success (codes "All notifications marked as read"))
      (does refreshes_alerts (record s { notifications = map as_read s.notifications }))
all_marked false s = does (toast_error (codes "Failed to mark all as read")) s

pub handle_click : Notification → Page → Page
unfolding mark_read
handle_click n s =
    let marked : Page = if n.is_read then s else mark_read n.id s in
    if n.link === [] then marked else does (navigates n.link) marked

pub filtered : Filter → List Notification → List Notification
filtered everything ns = ns
filtered unread ns = keep_if (λ n. not n.is_read) ns

pub unread_count : List Notification → ℕ
unread_count ns = length (keep_if (λ n. not n.is_read) ns)

-- A group and its label; the groups in the order in which their labels come first.
abbrev pub Group : Type 0
Group = Text × List Notification

-- `if (!groups[label]) groups[label] = []` and the `push` behind it.
pub push : Text → Notification → List Group → List Group
push label n [] = (label, n ∷ []) ∷ []
push label n (g ∷ gs) =
    let rest = push label n gs in if g.0 === label then (g.0, g.1 ++ (n ∷ [])) ∷ gs else g ∷ rest

-- `to_date_string` is `toDateString` of a date that is written down, `long_date` its long form.
module _ (to_date_string long_date : Text → Text) (today yesterday : Text) where
  pub label_of : Notification → Text
  label_of n =
      let d = to_date_string n.created_at in
      if d === today
      then codes "Today"
      else if d === yesterday
      then codes "Yesterday"
      else long_date n.created_at

  -- The loop with the groups so far.
  pub group_from : List Group → List Notification → List Group
  unfolding label_of push
  group_from gs [] = gs
  group_from gs (n ∷ ns) = group_from (push (label_of n) n gs) ns

  pub group_by_date : List Notification → List Group
  unfolding group_from
  group_by_date ns = group_from [] ns
