-- ===== src/Api/Request/Expiry.antt =====
-- How a session ends: a request that throws "Session expired", and `logout`.
mod Tests
use noant.Base.{
  ℕ, zero, suc, ◌+◌, ◌≤◌, ◌==◌, ltb, Text, codes, ◌===◌, Bool, true, false, not, ◌&&◌, ◌||◌,
  Bool-cases, Option, none, some, List, [], ◌∷◌, All, ◌≡◌, ◌≢◌, refl, sym, ◌∙◌, ap, arith, inl, inr,
  if◌then◌else◌,
}
use mathlib.Core.Path.{subst}
use noant.Json.{Value}
use noant.Api.Request.{
  Method, get, post, put, delete, Response, ok, not_ok, unreachable, Result, value, throws,
  session_expired, Thrown, Effect, fetch, wait, disconnect, go_to, Client, Run, respond,
  after_refresh, refresh_token, refreshed, sent, do_request, skips_refresh, refresh_endpoint,
  max_attempts, retry_delay, failure, expire, clear_auth, body_of, is_public, api_error,
  network_error, syntax_error, type_error, end_session, logout,
}
use noant.Api.Request.Bounds.{Within, do_request-Within}

-- The last thing done is to go to the login page.
abbrev pub Leaves : List Effect → Type 0
Leaves (go_to page ∷ log) = page ≡ codes "/login"
Leaves _ = ⊥

-- How a run may end that began on the page `path`.
abbrev pub EndsSession : Text → Run Result → Type 0
EndsSession path none = Unit
EndsSession path (some (throws session_expired, d)) =
    (d.has_failed_refresh ≡ true) × (is_public path ≡ false → Leaves d.log)
EndsSession path (some (result, d)) = Unit

abbrev SamePath {ℓ} : {A : Type ℓ} → Text → Run A → Type 0
SamePath path none = Unit
SamePath path (some (x, d)) = d.pathname ≡ path

abbrev Outcome : Text → Run Result → Type 0
Outcome path run = SamePath path run × EndsSession path run

if-Outcome :
    (b : Bool) (path : Text) (x y : Run Result)
    → Outcome path x
    → Outcome path y
    → Outcome path (if b then x else y)
if-Outcome true path x y v w = v
if-Outcome false path x y v w = w

refreshed-SamePath :
    (path : Text) (run : Run Result) → SamePath path run → SamePath path (refreshed run)
unfolding refreshed
refreshed-SamePath path none s = s
refreshed-SamePath path (some (value v, d)) s = s
refreshed-SamePath path (some (throws e, d)) s = s

refresh_token-SamePath :
    (path : Text) (send : Client → Run Result) (c : Client)
    → c.pathname ≡ path
    → SamePath path (send c)
    → SamePath path (refresh_token send c)
unfolding refresh_token
refresh_token-SamePath path send c p s = elim_if c.has_failed_refresh
  where
    elim_if : (b : Bool) → SamePath path (if b then some (false, c) else refreshed (send c))
    elim_if true = p
    elim_if false = refreshed-SamePath path (send c) s

expire-Leaves : (c : Client) → is_public c.pathname ≡ false → Leaves (expire c).log
unfolding expire clear_auth
expire-Leaves c n = ground arith

expire-Outcome :
    (path : Text) (c : Client)
    → c.pathname ≡ path
    → Outcome path (some (throws session_expired, expire c))
unfolding expire clear_auth
expire-Outcome path c p = (
  ground arith,
  (ground arith, λ n. expire-Leaves c (subst (λ q. is_public q ≡ false) (sym p) n)),
)

after_refresh-Outcome :
    (path : Text) (again : Client → Run Result) (run : Run Bool)
    → SamePath path run
    → ((d : Client) → d.pathname ≡ path → Outcome path (again d))
    → Outcome path (after_refresh again run)
unfolding after_refresh
after_refresh-Outcome path again none s next = (tt, tt)
after_refresh-Outcome path again (some (true, c)) s next = next c s
after_refresh-Outcome path again (some (false, c)) s next = expire-Outcome path c s

failure-ne : (status : ℕ) (json : Option Value) → failure status json ≢ session_expired
unfolding failure
failure-ne status json = ground arith

Outcome_of_ne :
    (path : Text) (e : Thrown) (c : Client)
    → e ≢ session_expired
    → c.pathname ≡ path
    → Outcome path (some (throws e, c))
Outcome_of_ne path (api_error v n) c ne p = (p, tt)
Outcome_of_ne path session_expired c ne p = absurd (ne refl)
Outcome_of_ne path network_error c ne p = (p, tt)
Outcome_of_ne path syntax_error c ne p = (p, tt)
Outcome_of_ne path type_error c ne p = (p, tt)

respond-Outcome :
    (path : Text) (again : ℕ → Client → Run Result) (refresh : Client → Run Bool) (endpoint : Text)
    (r : ℕ) (response : Response) (c : Client)
    → c.pathname ≡ path
    → SamePath path (refresh c)
    → ((d : Client) → d.pathname ≡ path → Outcome path (again (r + 1) d))
    → Outcome path (respond again refresh endpoint r response c)
unfolding respond body_of
respond-Outcome path again refresh endpoint r unreachable c p s next = (p, tt)
respond-Outcome path again refresh endpoint r (ok none) c p s next = (p, tt)
respond-Outcome path again refresh endpoint r (ok (some v)) c p s next = (p, tt)
respond-Outcome path again refresh endpoint r (not_ok status after json) c p s next =
    let last : Run Result = some (throws (failure status json), c) in
    let ended = after_refresh (again (r + 1)) (refresh c) in
    let later = record c { log = wait (retry_delay after r) ∷ c.log } in
    if-Outcome (status == 429 && ltb r max_attempts) path (again (r + 1) later) _ (next later p) (
      if-Outcome (status == 401 && (r == 0 && not (skips_refresh endpoint))) path ended last
        (after_refresh-Outcome path (again (r + 1)) (refresh c) s next)
        (Outcome_of_ne path (failure status json) c (failure-ne status json) p))

do_request-Outcome :
    (serve : ℕ → Response) (fuel : ℕ) (method : Method) (endpoint path : Text) (r : ℕ) (c : Client)
    → c.pathname ≡ path
    → Outcome path (do_request serve fuel method endpoint r c)
unfolding do_request
do_request-Outcome serve zero method endpoint path r c p = (tt, tt)
do_request-Outcome serve (suc fuel) method endpoint path r c p =
    respond-Outcome path (do_request serve fuel method endpoint)
      (refresh_token (do_request serve fuel post refresh_endpoint 0)) endpoint r (serve c.calls)
      (sent method endpoint c) p
      (refresh_token-SamePath path _ (sent method endpoint c) p
        (do_request-Outcome serve fuel post refresh_endpoint path 0 (sent method endpoint c) p).0)
      (λ d q. do_request-Outcome serve fuel method endpoint path (r + 1) d q)

-- A request that throws "Session expired" has left the client marked, so that it does not refresh
-- again, and, unless the page is a public one, its last act is to go to the login page.
pub do_request-EndsSession :
    (serve : ℕ → Response) (fuel : ℕ) (method : Method) (endpoint : Text) (c : Client)
    → EndsSession c.pathname (do_request serve fuel method endpoint 0 c)
do_request-EndsSession serve fuel method endpoint c =
    (do_request-Outcome serve fuel method endpoint c.pathname 0 c refl).1

end_session-Leaves :
    (run : Run Result) (n k : ℕ)
    → Within n k run
    → (d : Client) × (end_session run ≡ some (tt, d)) × (d.has_failed_refresh ≡ true) × Leaves d.log
unfolding end_session
end_session-Leaves none n k w = elim w [ ]
end_session-Leaves (some (r, c)) n k w = (_, refl, refl, refl)

-- `logout` ends whatever the server answers, marks the client and goes to the login page.
pub logout-Leaves :
    (serve : ℕ → Response) (fuel : ℕ) (c : Client)
    → 5 ≤ fuel
    → (d : Client) × (logout serve fuel c ≡ some (tt, d))
      × (d.has_failed_refresh ≡ true)
      × Leaves d.log
unfolding logout
logout-Leaves serve fuel c h =
    end_session-Leaves (do_request serve fuel post (codes "/auth/logout") 0 c) 8 c.calls
      (do_request-Within serve fuel post (codes "/auth/logout") c h)
