-- ===== src/VerifyEmail/Codes/Tests.antt =====
-- A code that is pasted with a blank, refused, and begun again by hand.
use noant.Base.{codes, some, List, [], ◌∷◌}
use noant.VerifyEmail.{Event, pastes, verify_got, types, presses, run, mounted}
use noant.VerifyEmail.Codes.{IsCoded, run-mounted-IsCoded}

abbrev refused : List Event
refused =
    pastes (codes "123 456")
    ∷ verify_got (some (codes "invalid_code"))
    ∷ types 0 (codes "a7")
    ∷ presses
    ∷ []

run-mounted-IsCoded_example : IsCoded (run refused mounted)
run-mounted-IsCoded_example = run-mounted-IsCoded refused
