-- ===== src/WhatsappModal/Polling/Tests.antt =====
-- A connection, its code, and its expiry.
use noant.Base.{codes, false, none, List, [], ◌∷◌, refl}
use noant.WhatsappModal.{Modal, form, idle, Event, types, connects, connect_got, poll_got, run}
use noant.WhatsappModal.Polling.{IsPolling, run-IsPolling}

abbrev pub closed : Modal
closed = record {
  phone = [];
  connection_name = [];
  view = form;
  error_msg = [];
  qr_code = [];
  session_id = [];
  test_state = idle;
  test_message = [];
  is_refreshing = false;
  qr_expired = false;
  session_status = [];
  validation_error = [];
  polls = none;
  timers = 0;
  log = [];
}

abbrev expires : List Event
expires =
    types (codes "+447700900123")
    ∷ connects
    ∷ connect_got
        (record { session_id = codes "s1"; status = codes "qr_ready"; qr_code = codes "q1" })
    ∷ poll_got (codes "s1") (codes "q1")
        (record { status = codes "expired"; connected = false; qr_code = [] })
    ∷ []

run-IsPolling_example : IsPolling (run expires closed)
run-IsPolling_example = run-IsPolling expires closed refl
