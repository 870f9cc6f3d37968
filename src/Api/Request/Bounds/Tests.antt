-- ===== src/Api/Request/Bounds/Tests.antt =====
-- A server that only rate-limits, and one whose sessions have ended.
use noant.Base.{ℕ, ◌==◌, codes, false, none, some, [], ◌≡◌, refl, arith, if◌then◌else◌}
use noant.Json.{null}
use noant.Api.Request.{
  get, Response, not_ok, ok, Client, Run, Result, do_request, respond, refresh_token, skips_refresh,
}
use noant.Api.Request.Bounds.{Within, do_request-Within}

abbrev client : Client
client = record { has_failed_refresh = false; pathname = codes "/chats/"; calls = 0; log = [] }

abbrev limited : ℕ → Response
limited n = not_ok 429 none none

do_request-Within_example : Within 8 0 (do_request limited 5 get (codes "/auth/me") 0 client)
do_request-Within_example = do_request-Within limited 5 get (codes "/auth/me") client (omega arith)

abbrev attempts : Run Result → ℕ
attempts none = 0
attempts (some (r, c)) = c.calls

limited_run : attempts (do_request limited 5 get (codes "/auth/me") 0 client) ≡ 4
unfolding do_request respond
limited_run = refl

-- The longest run: a 401, a refresh that succeeds at its fourth attempt, and three more attempts.
abbrev slow : ℕ → Response
slow n =
    if n == 0 then not_ok 401 none none else if n == 4 then ok (some null) else not_ok 429 none none

slow_run : attempts (do_request slow 5 get (codes "/auth/me") 0 client) ≡ 8
unfolding do_request respond refresh_token skips_refresh
slow_run = refl
