-- ===== src/VerifyEmail/Resending/Tests.antt =====
-- A code that is asked for too early, and again after a minute.
use noant.Base.{ℕ, zero, suc, ◌*◌, ◌≤◌, codes, none, List, [], ◌∷◌, ◌++◌}
use noant.VerifyEmail.{Event, resends, resend_got, ticks, mounted}
use noant.VerifyEmail.Resending.{sent_again, seconds, seconds-run-mounted}

abbrev wait : ℕ → List Event
wait zero = []
wait (suc n) = ticks ∷ wait n

abbrev asked_twice : List Event
asked_twice = resends (codes "a@b.c") ∷ wait 60 ++ resends (codes "a@b.c") ∷ resend_got none ∷ []

seconds-run-mounted_example : 60 * sent_again asked_twice mounted ≤ seconds asked_twice
seconds-run-mounted_example = seconds-run-mounted asked_twice
