-- ===== src/Widget/Transcript/Tests.antt =====
-- A question, its answer, and a question behind it.
use noant.Base.{codes, true, some, List, [], ◌∷◌, All, ◌≡◌, refl}
use noant.Json.{str, field, obj, end}
use noant.Widget.{defaults, Event, type_text, enter, click, error, load, built, run}
use noant.Widget.Transcript.{is_readable, IsValid, run-built-IsValid}

abbrev talk : List Event
talk =
    type_text (codes " hi ")
    ∷ enter
    ∷ load 200 (some (obj (field (codes "reply") (str (codes "hello")) end)))
    ∷ type_text (codes "so?")
    ∷ click
    ∷ error
    ∷ []

talk-is_readable : All (λ e. is_readable e ≡ true) talk
unfolding noant.Widget.draws noant.Json.member noant.Json.find_field
talk-is_readable = (refl, (refl, (refl, (refl, (refl, (refl, tt))))))

run-built-IsValid_example : IsValid (run talk (built defaults))
run-built-IsValid_example = run-built-IsValid defaults talk talk-is_readable
