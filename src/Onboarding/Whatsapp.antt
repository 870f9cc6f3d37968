-- ===== src/Onboarding/Whatsapp.antt =====
-- WhatsAppStep of frontend/src/app/(dashboard)/onboarding/page.tsx: the connection of a phone, with
-- the interval that asks for its status.
mod Leak
use noant.Base.{
  ℕ, ◌+◌, ◌==◌, ltb, leb, Text, codes, ◌===◌, starts_with, Bool, true, false, not, ◌&&◌, ◌||◌,
  Option, none, some, List, [], ◌∷◌, ◌++◌, if◌then◌else◌,
}

-- `step` of the component; `broken` is `error`.
pub data View : Type 0 where
  form qr connecting success broken : View

pub data Effect : Type 0 where
  posts_connect posts_refresh gets_status toast_error : Text → Effect

-- An interval with the session that its `poll` asks for.
pub record Interval : Type 0 where
  pub timer : ℕ
  pub session : Text

-- `intervals` are those that run; `timers` counts them from the start.
pub record Whatsapp : Type 0 where
  pub view : View
  pub phone : Text
  pub session_id : Text
  pub qr_code : Text
  pub error_msg : Text
  pub poll_ref : Option ℕ
  pub intervals : List Interval
  pub timers : ℕ
  pub log : List Effect

abbrev pub does : Effect → Whatsapp → Whatsapp
does e s = record s { log = e ∷ s.log }

pub without : ℕ → List Interval → List Interval
without n [] = []
without n (i ∷ is) = let rest = without n is in if i.timer == n then rest else i ∷ rest

-- `clearInterval(pollRef.current)`
pub clear_interval : Whatsapp → Whatsapp
unfolding without
clear_interval s = elim s.poll_ref [
  | none ↦ s
  | some n ↦ record s { intervals = without n s.intervals }
]

-- `startPolling`, with the request of its first poll.
pub start_polling : Text → Whatsapp → Whatsapp
start_polling sid s = record (does (gets_status sid) s) {
  intervals = record { timer = s.timers; session = sid } ∷ s.intervals;
  poll_ref = some s.timers;
  timers = s.timers + 1;
}

-- The answer to a poll; a missing code is empty.
pub record Status : Type 0 where
  pub status : Text
  pub connected : Bool
  pub qr_code : Text

-- What a poll does with its answer, where `seen` is the code as it was when the polling began: it
-- takes a new code, and ends when the session has.
pub poll_code : Text → Status → Whatsapp → Whatsapp
poll_code seen r s =
    if not (r.qr_code === []) && not (r.qr_code === seen)
    then record s { qr_code = r.qr_code }
    else s

pub poll_failure : Text → Whatsapp → Whatsapp
unfolding clear_interval
poll_failure message s = clear_interval (record s { error_msg = message; view = broken })

pub poll_end : Status → Whatsapp → Whatsapp
unfolding poll_failure
poll_end r s =
    if r.status === codes "expired"
    then poll_failure (codes "QR code expired") s
    else if r.status === codes "failed"
    then poll_failure (codes "Connection failed") s
    else s

pub polled : Text → Status → Whatsapp → Whatsapp
unfolding clear_interval poll_code poll_end
polled seen r s =
    if r.connected
    then clear_interval (record s { view = success })
    else poll_end r (poll_code seen r s)

-- A tick of an interval, which asks again.
pub tick : Interval → Whatsapp → Whatsapp
tick i s = does (gets_status i.session) s

abbrev is_digit : ℕ → Bool
is_digit c = leb 48 c && leb c 57

pub digits : Text → Text
digits [] = []
digits (c ∷ cs) = let rest = digits cs in if is_digit c then c ∷ rest else rest

pub cleaned : Text → Text
unfolding digits
cleaned phone = if starts_with (codes "+") phone then phone else codes "+" ++ digits phone

abbrev length : Text → ℕ
length [] = 0
length (c ∷ cs) = length cs + 1

-- `handleConnect` up to its request, and behind it.
pub handle_connect : Whatsapp → Whatsapp
unfolding cleaned
handle_connect s =
    if ltb (length (cleaned s.phone)) 10
    then does
        (toast_error (codes "Enter a valid phone number with country code (e.g. +447700900123)")) s
    else does (posts_connect (cleaned s.phone)) (record s { view = connecting })

pub record Session : Type 0 where
  pub session_id : Text
  pub status : Text

pub connect_answered : Option Session → Whatsapp → Whatsapp
unfolding start_polling
connect_answered none s = record s {
  error_msg = codes "Failed to connect. Check that OpenWA is running.";
  view = broken;
}
connect_answered (some r) s =
    if r.status === codes "connected"
    then record s { session_id = r.session_id; view = success }
    else start_polling r.session_id (record s { session_id = r.session_id; view = qr })

pub handle_refresh : Whatsapp → Whatsapp
handle_refresh s = if s.session_id === [] then s else does (posts_refresh s.session_id) s

pub refresh_answered : Option Text → Whatsapp → Whatsapp
unfolding start_polling
refresh_answered none s = does (toast_error (codes "Failed to refresh QR")) s
refresh_answered (some sid) s =
    start_polling sid (record s { session_id = sid; qr_code = []; view = qr })

pub handle_verify : Whatsapp → Whatsapp
handle_verify s = if s.session_id === [] then s else does (gets_status s.session_id) s

pub verify_answered : Option Bool → Whatsapp → Whatsapp
unfolding clear_interval
verify_answered none s = does (toast_error (codes "Verification failed")) s
verify_answered (some true) s = clear_interval (record s { view = success })
verify_answered (some false) s =
    does (toast_error (codes "Not connected yet. Scan the QR code with your phone.")) s

-- The cleanup of the effect.
pub unmount : Whatsapp → Whatsapp
unfolding clear_interval
unmount s = clear_interval s

-- A button is taken to be there at any time.
pub data Event : Type 0 where
  types : Text → Event
  connects refreshes verifies unmounts : Event
  connect_got : Option Session → Event
  refresh_got : Option Text → Event
  verify_got : Option Bool → Event
  poll_got : Text → Status → Event
  ticks : Interval → Event

pub step : Event → Whatsapp → Whatsapp
step (types t) s = record s { phone = t }
step connects s = if s.phone === [] then s else handle_connect s
step refreshes s = handle_refresh s
step verifies s = handle_verify s
step unmounts s = unmount s
step (connect_got r) s = connect_answered r s
step (refresh_got r) s = refresh_answered r s
step (verify_got r) s = verify_answered r s
step (poll_got seen r) s = polled seen r s
step (ticks i) s = tick i s

pub run : List Event → Whatsapp → Whatsapp
unfolding step
run [] s = s
run (e ∷ es) s = run es (step e s)
