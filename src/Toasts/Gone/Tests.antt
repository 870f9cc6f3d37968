-- ===== src/Toasts/Gone/Tests.antt =====
-- Two toasts, one a second after the other, the first removed by hand.
use noant.Base.{codes, List, [], ◌∷◌, ◌≡◌, arith}
use noant.Toasts.{Event, shows, removes, passes, error, success, run, pass, no_toasts}
use noant.Toasts.Gone.{toasts-pass-run}

abbrev two : List Event
two =
    shows (codes "a") (codes "Saved") success
    ∷ passes 1000
    ∷ shows (codes "b") (codes "Failed") error
    ∷ removes (codes "a")
    ∷ []

toasts-pass-run_example : (pass 4500 (run two no_toasts)).toasts ≡ []
toasts-pass-run_example = toasts-pass-run two 4500 (omega arith)
