-- ===== src/Push/Agreement/Tests.antt =====
-- A subscription whose first request the server refuses, and its end.
use noant.Base.{codes, true, false, none, some, List, [], ◌∷◌, refl}
use noant.Push.{Push, Event, default, granted, subscribes, unsubscribes, checks, run}
use noant.Push.Agreement.{IsHonest, run-IsHonest}

abbrev fresh : Push
fresh = record {
  permission = default;
  subscribed = false;
  loading = false;
  supported = true;
  endpoint = none;
  told = [];
}

abbrev on_and_off : List Event
on_and_off =
    checks true
    ∷ subscribes (record {
      permission = some granted;
      ready = true;
      created = some (codes "e1");
      posted = false;
    })
    ∷ subscribes (record { permission = some granted; ready = true; created = none; posted = true })
    ∷ unsubscribes (record { ready = true; removed = true; posted = true })
    ∷ []

run-IsHonest_test : IsHonest (run (codes "key") on_and_off fresh)
run-IsHonest_test =
    run-IsHonest (codes "key") on_and_off fresh refl (record { idle = refl; honest = refl })
