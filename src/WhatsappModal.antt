-- ===== src/WhatsappModal.antt =====
-- WhatsAppModal of frontend/src/components/channels/WhatsAppModal.tsx: the form, the code that is
-- scanned, the loop that polls the session, and the timers that close the modal.
pub mod Phone
pub mod Polling
pub mod Stuck
use noant.Base.{
  ℕ, zero, suc, ◌+◌, ◌-◌, ◌==◌, ltb, leb, Text, codes, ◌===◌, starts_with, slice, length, Bool,
  true, false, not, ◌&&◌, ◌||◌, Option, none, some, List, [], ◌∷◌, if◌then◌else◌,
}
use noant.Widget.{is_space, trim}

-- `step` of the component; `broken` is `error`.
pub data View : Type 0 where
  form qr verifying success broken connecting : View

pub data Test : Type 0 where
  idle testing passed failed : Test

pub data Effect : Type 0 where
  posts_connect posts_refresh posts_ping gets_status gets_fast gets_forced : Text → Effect
  on_connect on_close : Effect

-- `polls` is the session of the loop that is active, and `timers` counts the timers that are to close
-- the modal. `log` has the newest effect first.
pub record Modal : Type 0 where
  pub phone : Text
  pub connection_name : Text
  pub view : View
  pub error_msg : Text
  pub qr_code : Text
  pub session_id : Text
  pub test_state : Test
  pub test_message : Text
  pub is_refreshing : Bool
  pub qr_expired : Bool
  pub session_status : Text
  pub validation_error : Text
  pub polls : Option Text
  pub timers : ℕ
  pub log : List Effect

abbrev pub does : Effect → Modal → Modal
does e s = record s { log = e ∷ s.log }

-- `replace(/\s+/g, '').replace(/[-()]/g, '')`
abbrev pub is_dropped : ℕ → Bool
is_dropped c = is_space c || c == 45 || c == 40 || c == 41

pub cleaned : Text → Text
cleaned [] = []
cleaned (c ∷ cs) = let rest = cleaned cs in if is_dropped c then rest else c ∷ rest

abbrev pub is_digit : ℕ → Bool
is_digit c = leb 48 c && leb c 57

-- `/^\d+$/`
abbrev pub every_digit : Text → Bool
every_digit [] = true
every_digit (c ∷ cs) = is_digit c && every_digit cs

abbrev pub all_digits : Text → Bool
all_digits [] = false
all_digits (c ∷ cs) = is_digit c && every_digit cs

-- `validatePhone` behind its first line.
pub validate_cleaned : Text → Text
validate_cleaned n =
    let digits_only = slice 1 n in
    if n === []
    then []
    else if starts_with (codes "0") n
    then codes "Please replace the leading 0 with your country code (e.g. +44 or +234)"
    else if not (starts_with (codes "+") n)
    then codes "Phone number must start with + and include country code (e.g. +44...)"
    else if not (all_digits digits_only)
    then codes "Phone number must contain only numbers after the +"
    else if ltb (length digits_only) 8 || ltb 15 (length digits_only)
    then codes "Please enter a valid phone number (8-15 digits after country code)"
    else []

pub validate_phone : Text → Text
unfolding validate_cleaned cleaned
validate_phone num = validate_cleaned (cleaned num)

abbrev pub tag : View → ℕ
tag form = 0
tag qr = 1
tag verifying = 2
tag success = 3
tag broken = 4
tag connecting = 5

abbrev pub same_view : View → View → Bool
same_view v w = tag v == tag w

-- The effect on `[step, sessionId, qrCode]`: the former loop is no longer active, and a loop begins,
-- with its first request, where a code is shown for a session.
pub start_polling : Modal → Modal
start_polling s =
    if not (same_view s.view qr) || s.session_id === []
    then record s { polls = none }
    else does (gets_status s.session_id) (record s { polls = some s.session_id })

-- The state `t` that a handler leaves, rendered after `s`.
pub render : Modal → Modal → Modal
unfolding start_polling
render s t =
    if same_view s.view t.view && s.session_id === t.session_id && s.qr_code === t.qr_code
    then t
    else start_polling t

-- `setStep('success')`, `onConnect?.()` and the timer.
pub succeed : Modal → Modal
succeed s = does on_connect (record s { view = success; timers = s.timers + 1 })

pub handle_close : Modal → Modal
handle_close s = does on_close (record s {
  phone = [];
  connection_name = [];
  view = form;
  error_msg = [];
  qr_code = [];
  session_id = [];
  test_state = idle;
  test_message = [];
  qr_expired = false;
  is_refreshing = false;
  session_status = [];
  validation_error = [];
})

-- A change of the phone.
pub change_phone : Text → Modal → Modal
unfolding validate_phone
change_phone t s = record s {
  phone = t;
  test_state = idle;
  test_message = [];
  validation_error = validate_phone t;
}

-- `handleConnect` up to its request.
pub handle_connect : Modal → Modal
unfolding cleaned validate_phone
handle_connect s =
    if not (validate_phone s.phone === [])
    then record s { validation_error = validate_phone s.phone }
    else does (posts_connect (cleaned s.phone))
        (record s { view = connecting; error_msg = []; qr_code = [] })

pub record Session : Type 0 where
  pub session_id : Text
  pub status : Text
  pub qr_code : Text

pub connect_answered : Session → Modal → Modal
unfolding succeed
connect_answered r s =
    let t = record s { session_id = r.session_id; session_status = r.status } in
    if r.status === codes "connected"
    then succeed t
    else if not (r.qr_code === [])
    then record t { qr_code = r.qr_code; view = qr }
    else record t { view = qr }

pub connect_failed : Text → Modal → Modal
connect_failed message s = record s { view = broken; error_msg = message }

-- The answer to a poll.
pub record Status : Type 0 where
  pub status : Text
  pub connected : Bool
  pub qr_code : Text

-- The loop ends, or asks again.
abbrev pub stop : Modal → Modal
stop s = record s { polls = none }

abbrev pub again : Text → Modal → Modal
again sid s = does (gets_status sid) s

-- `seen` is the code as it was when the loop began.
pub polled : (sid seen : Text) → Status → Modal → Modal
unfolding succeed
polled sid seen r s =
    let t = record s { session_status = r.status } in
    if r.connected
    then stop (succeed t)
    else if r.status === codes "expired"
    then stop (record t {
      qr_expired = true;
      qr_code = [];
      error_msg = codes "QR code expired. Click \"Refresh QR\" to generate a new one.";
    })
    else if r.status === codes "failed"
    then stop (record t {
      qr_code = [];
      error_msg =
          codes "Session initialization failed. Click \"Refresh QR\" or check your server status.";
    })
    else if r.status === codes "disconnected"
    then stop (record t {
      qr_code = [];
      error_msg = codes "Session disconnected. Click \"Refresh QR\" to reconnect.";
    })
    else if not (r.qr_code === []) && not (r.qr_code === seen)
    then again sid (record t { qr_code = r.qr_code; qr_expired = false })
    else again sid t

pub handle_verify : Modal → Modal
handle_verify s =
    if s.session_id === [] then s else does (gets_fast s.session_id) (record s { view = verifying })

-- The answers to the two requests, whose session is `sid`.
pub verify_answered : Text → Bool → Modal → Modal
unfolding succeed
verify_answered sid true s = succeed s
verify_answered sid false s = does (gets_forced sid) s

pub force_answered : Bool → Modal → Modal
unfolding succeed
force_answered true s = succeed s
force_answered false s = record s {
  view = qr;
  error_msg = codes "Could not verify. Make sure you scanned the QR code with your phone.";
}

pub verify_failed : Text → Modal → Modal
verify_failed message s = record s { view = qr; error_msg = message }

pub handle_refresh_qr : Modal → Modal
handle_refresh_qr s =
    if s.session_id === [] || s.is_refreshing
    then s
    else does (posts_refresh s.session_id) (record s { is_refreshing = true; error_msg = [] })

-- A session or a code that is missing is empty.
pub refreshed : (sid code : Text) → Modal → Modal
refreshed sid code s = record s {
  session_id = if sid === [] then s.session_id else sid;
  qr_code = code;
  qr_expired = false;
  session_status = codes "initializing";
  is_refreshing = false;
}

pub refresh_failed : Text → Modal → Modal
refresh_failed message s = record s { error_msg = message; is_refreshing = false }

pub handle_test : Modal → Modal
unfolding cleaned validate_phone
handle_test s =
    if not (validate_phone s.phone === [])
    then record s { validation_error = validate_phone s.phone }
    else does (posts_ping (cleaned s.phone)) (record s { test_state = testing; test_message = [] })

pub tested : Option Text → (message : Text) → Modal → Modal
tested none message s = record s { test_state = failed; test_message = message }
tested (some []) message s = record s {
  test_state = passed;
  test_message = codes "Connection successful!";
}
tested (some (c ∷ cs)) message s = record s { test_state = passed; test_message = c ∷ cs }

-- A message of the socket.
pub received : (type channel status : Text) → Modal → Modal
unfolding succeed
received type channel status s =
    if type === codes "integration_update"
      && channel === codes "whatsapp"
      && status === codes "connected"
    then succeed s
    else s

-- A timer, 2.5 seconds after a success.
pub timed_out : Modal → Modal
unfolding handle_close
timed_out s = handle_close (record s { timers = s.timers - 1 })

-- The buttons of a view are there in that view, and an answer comes at any time. The form is sent only
-- while its button is not disabled.
pub can_connect : Modal → Bool
can_connect s = not (trim s.phone === []) && s.validation_error === []

abbrev pub in_form : Modal → Bool
in_form s = same_view s.view form || same_view s.view broken

pub data Event : Type 0 where
  types : Text → Event
  connects verifies refreshes tests times_out closes : Event
  connect_got : Session → Event
  connect_fails verify_fails refresh_fails : Text → Event
  poll_got : (sid seen : Text) → Status → Event
  verify_got : Text → Bool → Event
  force_got : Bool → Event
  refresh_got : (sid code : Text) → Event
  test_got : Option Text → Text → Event
  receives : (type channel status : Text) → Event

abbrev pub polls_for : Text → Modal → Bool
polls_for sid s = elim s.polls [ none ↦ false | some k ↦ k === sid ]

-- What an event does to the state, before it is rendered.
pub handle : Event → Modal → Modal
unfolding change_phone can_connect handle_connect handle_verify handle_refresh_qr handle_test
    timed_out handle_close connect_answered connect_failed verify_failed refresh_failed polled
    verify_answered force_answered refreshed tested received
handle (types t) s = if in_form s then change_phone t s else s
handle connects s = if in_form s && can_connect s then handle_connect s else s
handle verifies s = if same_view s.view qr then handle_verify s else s
handle refreshes s = if same_view s.view qr then handle_refresh_qr s else s
handle tests s = if in_form s && can_connect s then handle_test s else s
handle times_out s = if s.timers == 0 then s else timed_out s
handle closes s = handle_close s
handle (connect_got r) s = connect_answered r s
handle (connect_fails m) s = connect_failed m s
handle (verify_fails m) s = verify_failed m s
handle (refresh_fails m) s = refresh_failed m s
handle (poll_got sid seen r) s = if polls_for sid s then polled sid seen r s else s
handle (verify_got sid b) s = verify_answered sid b s
handle (force_got b) s = force_answered b s
handle (refresh_got sid code) s = refreshed sid code s
handle (test_got a m) s = tested a m s
handle (receives t c st) s = received t c st s

pub step : Event → Modal → Modal
unfolding handle render
step e s = render s (handle e s)

pub run : List Event → Modal → Modal
unfolding step
run [] s = s
run (e ∷ es) s = run es (step e s)
