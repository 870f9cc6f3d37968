-- ===== src/Api/Request/Expiry/Tests.antt =====
-- A request on the chats page after its session has ended, and a logout without a server.
use noant.Base.{ℕ, codes, true, false, none, some, [], ◌≡◌, arith}
use noant.Api.Request.{get, Response, not_ok, unreachable, Client, do_request, logout}
use noant.Api.Request.Expiry.{Leaves, EndsSession, do_request-EndsSession, logout-Leaves}

abbrev client : Client
client = record { has_failed_refresh = false; pathname = codes "/chats/"; calls = 0; log = [] }

abbrev ended : ℕ → Response
ended n = not_ok 401 none none

do_request-EndsSession_example :
    EndsSession (codes "/chats/") (do_request ended 5 get (codes "/auth/me") 0 client)
do_request-EndsSession_example = do_request-EndsSession ended 5 get (codes "/auth/me") client

logout-Leaves_test :
    (d : Client) × (logout (λ n. unreachable) 5 client ≡ some (tt, d))
    × (d.has_failed_refresh ≡ true)
    × Leaves d.log
logout-Leaves_test = logout-Leaves (λ n. unreachable) 5 client (omega arith)
