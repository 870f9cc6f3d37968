-- ===== src/Worker/Cached/Tests.antt =====
-- An API response and a page, each asked for twice.
use noant.Base.{Text, codes, true, Option, none, some, List, [], ◌∷◌, ◌≡◌, refl}
use noant.Worker.{Response, Request, find, run}
use noant.Worker.Cached.{counts, find-run}

abbrev get : Text → Request
get url = record { method = codes "GET"; url = url }

abbrev answer : Text → Response
answer body = record { status = 200; ok = true; body = body }

abbrev visits : List (Request × Option Response)
visits =
    (get (codes "/api/v1/chats"), some (answer (codes "old")))
    ∷ (get (codes "/chats"), some (answer (codes "page")))
    ∷ (get (codes "/api/v1/chats"), some (answer (codes "new")))
    ∷ (get (codes "/chats"), some (answer (codes "later")))
    ∷ []

find-run_example : find (codes "/api/v1/chats") (run visits []) ≡ some (answer (codes "new"))
unfolding find
find-run_example = find-run (codes "/api/v1/chats") visits []

-- A page that was once cached stays.
first_page : counts (codes "/chats") none visits ≡ some (answer (codes "page"))
first_page = refl
