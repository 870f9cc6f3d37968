-- ===== src/Alerts.antt =====
-- `SidebarAlertsProvider` of frontend/src/contexts/SidebarAlertsContext.tsx. A fetch starts at once
-- and its four results arrive as an event of their own.
pub mod Spacing
use noant.Base.{
  ℕ, ◌+◌, ◌-◌, ltb, Text, codes, ◌===◌, length, keep_if, Bool, true, false, not, ◌||◌, Option, none,
  some, List, [], ◌∷◌, if◌then◌else◌,
}
use noant.Json.{Value}

pub record Alerts : Type 0 where
  pub unread_chats : ℕ
  pub unknown_questions : ℕ
  pub channel_issues : ℕ
  pub billing_alert : Bool
  pub unread_notifications : ℕ
  pub total : ℕ

abbrev pub default_alerts : Alerts
default_alerts = record {
  unread_chats = 0;
  unknown_questions = 0;
  channel_issues = 0;
  billing_alert = false;
  unread_notifications = 0;
  total = 0;
}

-- What the four requests give; a field that is absent or null is `none`, and so is a body that is
-- null. Of an integration only its status counts.
pub record Overview : Type 0 where
  pub unread_conversations : Option ℕ
  pub billing : Option Bool

pub record Integrations : Type 0 where
  pub integrations : Option (List Text)
  pub channels : Option (List Text)

pub data Settled {ℓ} (A : Type ℓ) : Type ℓ where
  fulfilled : Option A → Settled A
  rejected : Settled A

pub record Results : Type 0 where
  pub overview : Settled Overview
  pub questions : Settled (Option (List Value))
  pub count : Settled (Option ℕ)
  pub integrations_list : Settled Integrations

-- `a ?? b`
abbrev pub or_else {ℓ} : {A : Type ℓ} → Option A → A → A
or_else none b = b
or_else (some a) b = a

-- `res.status === 'fulfilled' ? (res.value?.k ?? b) : b`
abbrev pub read {ℓ κ} : {A : Type ℓ} {B : Type κ} → (A → Option B) → B → Settled A → B
read k b (fulfilled (some a)) = or_else (k a) b
read k b _ = b

abbrev is_error : Text → Bool
is_error status = status === codes "error"

-- `intRes.value?.integrations || intRes.value?.channels || []`
items_of : Settled Integrations → List Text
items_of (fulfilled (some r)) = or_else r.integrations (or_else r.channels [])
items_of _ = []

-- the body of the `try`, behind its `await`
pub alerts_of : Results → Alerts
unfolding items_of
alerts_of r =
    let unread_chats = read (λ o. o.unread_conversations) 0 r.overview in
    let billing_alert = read (λ o. o.billing) false r.overview in
    let unknown_questions = length (read (λ q. q) [] r.questions) in
    let unread_notifications = read (λ c. c) 0 r.count in
    let channel_issues = length (keep_if is_error (items_of r.integrations_list)) in
    record {
      unread_chats = unread_chats;
      unknown_questions = unknown_questions;
      channel_issues = channel_issues;
      billing_alert = billing_alert;
      unread_notifications = unread_notifications;
      total =
          unread_chats
          + unknown_questions
          + channel_issues
          + unread_notifications
          + (if billing_alert then 1 else 0);
    }

pub data Cause : Type 0 where
  poll live : Cause

-- `log` has the fetches that were started, with their times, the newest first.
pub record Sidebar : Type 0 where
  pub has_user : Bool
  pub alerts : Alerts
  pub last_fetch : ℕ
  pub log : List (ℕ × Cause)

pub data Event : Type 0 where
  interval refresh : (now : ℕ) → Event
  message : (type : Text) (now : ℕ) → Event
  arrived : Results → Event

pub fetch_alerts : Cause → ℕ → Sidebar → Sidebar
fetch_alerts cause now s =
    if not s.has_user
    then s
    else if ltb (now - s.last_fetch) 6000
    then s
    else record s { last_fetch = now; log = (now, cause) ∷ s.log }

abbrev pub refreshes : Text → Bool
refreshes type =
    type === codes "new_message"
    || type === codes "unknown_question"
    || type === codes "notification"

-- `lastFetchRef.current = 0; fetchAlerts()`
pub refresh_alerts : ℕ → Sidebar → Sidebar
unfolding fetch_alerts
refresh_alerts now s = fetch_alerts live now (record s { last_fetch = 0 })

pub step : Event → Sidebar → Sidebar
unfolding fetch_alerts refresh_alerts alerts_of
step (interval now) s = fetch_alerts poll now s
step (refresh now) s = refresh_alerts now s
step (message type now) s = if refreshes type then refresh_alerts now s else s
step (arrived r) s = record s { alerts = alerts_of r }

pub run : List Event → Sidebar → Sidebar
unfolding step
run [] s = s
run (e ∷ es) s = run es (step e s)

pub mounted : Bool → Sidebar
mounted has_user = record { has_user = has_user; alerts = default_alerts; last_fetch = 0; log = [] }
