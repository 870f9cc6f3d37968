-- ===== src/Api/Request/Session/Tests.antt =====
-- A client after a failed refresh: a login, and a request whose session has ended.
use noant.Base.{ℕ, ◌==◌, codes, Text, true, none, some, List, [], ◌∷◌, ◌≡◌, refl, if◌then◌else◌}
use noant.Json.{null}
use noant.Api.Request.{Method, get, post, Response, not_ok, ok, Client}
use noant.Api.Request.Session.{requests, refreshes, requests-has_failed_refresh}

abbrev marked : Client
marked = record { has_failed_refresh = true; pathname = codes "/login"; calls = 0; log = [] }

abbrev serve : ℕ → Response
serve n = if n == 0 then ok (some null) else not_ok 401 none none

abbrev row : List (Method × Text)
row = (post, codes "/auth/login") ∷ (get, codes "/auth/me") ∷ []

requests-has_failed_refresh_test :
    (d : Client) × (requests serve row marked ≡ some d)
    × (d.has_failed_refresh ≡ true)
    × (refreshes d.log ≡ 0)
requests-has_failed_refresh_test =
    requests-has_failed_refresh serve row marked (refl, (refl, tt)) refl
