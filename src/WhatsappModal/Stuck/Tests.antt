-- ===== src/WhatsappModal/Stuck/Tests.antt =====
-- `Refresh QR` twice, behind a code that has expired.
use noant.Base.{codes, true, false, none, List, [], ◌∷◌, refl}
use noant.WhatsappModal.{Modal, qr, idle, Event, refreshes, refresh_got, run}
use noant.WhatsappModal.Stuck.{IsStuck, run-IsStuck}

abbrev pub expired : Modal
expired = record {
  phone = codes "+447700900123";
  connection_name = [];
  view = qr;
  error_msg = codes "QR code expired. Click \"Refresh QR\" to generate a new one.";
  qr_code = [];
  session_id = codes "s1";
  test_state = idle;
  test_message = [];
  is_refreshing = false;
  qr_expired = true;
  session_status = codes "expired";
  validation_error = [];
  polls = none;
  timers = 0;
  log = [];
}

abbrev refreshed_twice : List Event
refreshed_twice = refreshes ∷ refresh_got (codes "s1") [] ∷ refreshes ∷ refresh_got [] [] ∷ []

run-IsStuck_test : IsStuck (codes "s1") 0 (run refreshed_twice expired)
run-IsStuck_test =
    run-IsStuck (codes "s1") 0 refreshed_twice expired refl
      (record { view = refl; session = refl; code = refl; ended = refl; asked = refl })
