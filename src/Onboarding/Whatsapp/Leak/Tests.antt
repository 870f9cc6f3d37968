-- ===== src/Onboarding/Whatsapp/Leak/Tests.antt =====
-- A code that is asked for again, a connection, and the end of the page.
use noant.Base.{codes, true, some, List, [], ◌∷◌, ◌≡◌, refl}
use noant.Onboarding.Whatsapp.{Whatsapp, qr, Event, verify_got, unmounts, refresh_answered, run}
use noant.Onboarding.Whatsapp.Leak.{has_timer, has_timer-run-refreshed}

abbrev waiting : Whatsapp
waiting = record {
  view = qr;
  phone = codes "+2348000000000";
  session_id = codes "s1";
  qr_code = codes "q1";
  error_msg = [];
  poll_ref = some 0;
  intervals = record { timer = 0; session = codes "s1" } ∷ [];
  timers = 1;
  log = [];
}

abbrev to_the_end : List Event
to_the_end = verify_got (some true) ∷ unmounts ∷ []

has_timer-run-refreshed_test :
    has_timer 0 ((run to_the_end (refresh_answered (some (codes "s2")) waiting)).intervals) ≡ true
has_timer-run-refreshed_test =
    has_timer-run-refreshed (codes "s2") 0 waiting refl refl refl to_the_end
