-- ===== src/Palette/Choice/Tests.antt =====
-- The palette, opened, with a search that one entry meets, and the arrow keys.
use noant.Base.{◌+◌, codes, some, length, List, [], ◌∷◌, ◌≡◌, refl}
use noant.Palette.{Event, ctrl_k, type_text, arrow_up, enter, filtered, run, step, initial}
use noant.Palette.Choice.{length-log-enter}

abbrev keys : List Event
keys = ctrl_k ∷ type_text (codes "Teach") ∷ arrow_up ∷ []

length-log-enter_test :
    length (step (λ t. t) enter (run (λ t. t) keys initial)).log
    ≡ length (run (λ t. t) keys initial).log + 1
unfolding run filtered
length-log-enter_test =
    length-log-enter (λ t. t) keys
      (record { label = codes "Go to Teach your Noant"; path = some (codes "/teach") }) [] refl refl
