-- ===== src/Users/Latest/Tests.antt =====
-- Two searches, whose answers come in the wrong order.
use noant.Base.{Text, codes, true, Option, none, some, List, [], ◌∷◌, refl}
use noant.Users.{Listing, Users}
use noant.Users.Latest.{Event, searches, fires, answers, run, IsLatest, run-IsLatest}

abbrev mounted : Users
mounted = record {
  search = [];
  plan = [];
  generation = 0;
  timer = none;
  asked = [];
  users = [];
  total = 0;
  error = none;
  loading = true;
}

-- The one user has the name that is searched for.
abbrev serve : Text → Text → Option Listing
serve t p = some (record { users = t ∷ []; total = 1 })

abbrev typing : List Event
typing =
    searches (codes "a") [] ∷ fires ∷ searches (codes "ab") [] ∷ fires ∷ answers 0 ∷ answers 0 ∷ []

run-IsLatest_example : IsLatest serve (run serve typing mounted)
run-IsLatest_example = run-IsLatest serve typing mounted refl refl refl
