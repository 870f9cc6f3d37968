-- ===== src/Network/Flash/Tests.antt =====
-- A connection that is lost, back, and lost again while the flag is up.
use noant.Base.{true, List, [], ◌∷◌}
use noant.Network.{Event, offline, online, check_failed, run, initial}
use noant.Network.Flash.{IsValid, run-initial-IsValid}

abbrev flicker : List Event
flicker = offline ∷ online ∷ check_failed ∷ offline ∷ []

run-initial-IsValid_test : IsValid (run flicker (initial true))
run-initial-IsValid_test = run-initial-IsValid true flicker
