-- ===== src/Api/Inflight/Single/Tests.antt =====
-- Two calls of one address, and a third behind the answer.
use noant.Base.{codes, true, false, List, [], ◌∷◌}
use noant.Api.Inflight.{Event, called, settled, run, empty}
use noant.Api.Inflight.Single.{IsValid, run-empty-IsValid}

abbrev calls : List Event
calls =
    called true (codes "/auth/me")
    ∷ called false (codes "/auth/logout")
    ∷ called true (codes "/auth/me")
    ∷ called true (codes "/plans")
    ∷ settled 0
    ∷ called true (codes "/auth/me")
    ∷ []

run-empty-IsValid_example : IsValid (run calls empty)
run-empty-IsValid_example = run-empty-IsValid calls
