-- ===== src/Network/Health/Tests.antt =====
-- A server that fails three checks, and one that fails two behind a good one.
use noant.Base.{true, List, [], ◌∷◌, ◌≡◌}
use noant.Network.{Event, offline, online, check_failed, run, initial}
use noant.Network.Health.{is_server_down-run}

abbrev outage : List Event
outage = check_failed ∷ offline ∷ check_failed ∷ online ∷ check_failed ∷ []

is_server_down-run_example : (run outage (initial true)).is_server_down ≡ true
is_server_down-run_example = is_server_down-run true outage
