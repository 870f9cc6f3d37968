-- ===== src/AdminSocket/Single/Tests.antt =====
-- An error, the close behind it, and the timer.
use noant.Base.{List, [], ◌∷◌}
use noant.AdminSocket.{Event, opens, errs, closes, fires, run, start}
use noant.AdminSocket.Single.{IsSingle, run-start-IsSingle}

abbrev failing : List Event
failing = opens 0 ∷ errs 0 ∷ closes 0 ∷ fires 0 ∷ opens 1 ∷ []

run-start-IsSingle_example : IsSingle (run failing start)
run-start-IsSingle_example = run-start-IsSingle failing
