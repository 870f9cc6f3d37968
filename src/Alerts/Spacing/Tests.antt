-- ===== src/Alerts/Spacing/Tests.antt =====
-- A poll, one that comes too early, a message, and the results.
use noant.Base.{codes, true, none, some, List, [], ◌∷◌, arith}
use noant.Alerts.{Event, interval, message, arrived, fulfilled, rejected, run, mounted}
use noant.Alerts.Spacing.{IsValid, run-mounted-IsValid}

abbrev day : List Event
day =
    interval 10000
    ∷ interval 12000
    ∷ message (codes "new_message") 13000
    ∷ arrived (record {
      overview = fulfilled (some (record { unread_conversations = some 2; billing = some true }));
      questions = fulfilled none;
      count = rejected;
      integrations_list =
          fulfilled (some (record { integrations = some (codes "error" ∷ []); channels = none }));
    })
    ∷ interval 40000
    ∷ []

run-mounted-IsValid_test : IsValid (run day (mounted true))
run-mounted-IsValid_test =
    run-mounted-IsValid true day
      (omega arith, (omega arith, (omega arith, (tt, (omega arith, tt)))))
