-- ===== src/Api/Request.antt =====
-- `doRequest` of frontend/src/lib/api.ts with `refreshToken`, `clearAuth` and `logout` of
-- frontend/src/lib/auth.ts, for one request at a time. `serve n` is what becomes of the `n`-th
-- `fetch`; the requests carry their credentials in cookies.
pub mod Bounds
pub mod Session
pub mod Expiry
use noant.Base.{
  ℕ, zero, suc, ◌+◌, ◌*◌, ◌^◌, ◌==◌, ltb, Text, codes, ◌===◌, includes, Bool, true, false, not,
  ◌&&◌, ◌||◌, Option, none, some, List, [], ◌∷◌, if◌then◌else◌,
}
use noant.Json.{Value, undefined, str, or, member}
use noant.Endpoint.{drop_slash}

pub data Method : Type 0 where
  get post put delete : Method

-- `not_ok` has the status, the `Retry-After` header, if there is one that is not empty, as
-- `parseInt` reads it (`none` is NaN), and the body, if it is JSON; `ok` has the body likewise.
pub data Response : Type 0 where
  ok : Option Value → Response
  not_ok : ℕ → Option (Option ℕ) → Option Value → Response
  unreachable : Response

-- What a request throws: an APIError that the server's answer makes, the one for the end of the
-- session, and the errors of `fetch`, of `JSON.parse` and of a read on `null`.
pub data Thrown : Type 0 where
  api_error : Value → ℕ → Thrown
  session_expired network_error syntax_error type_error : Thrown

pub data Result : Type 0 where
  value : Value → Result
  throws : Thrown → Result

pub data Effect : Type 0 where
  fetch : Method → Text → Effect
  wait : Option ℕ → Effect
  disconnect : Effect
  go_to : Text → Effect

-- `hasFailedRefresh`, the path of the page, the number of fetches so far, and what was done, the
-- newest first.
pub record Client : Type 0 where
  pub has_failed_refresh : Bool
  pub pathname : Text
  pub calls : ℕ
  pub log : List Effect

abbrev pub max_attempts : ℕ
max_attempts = 3

-- What a run gives: `none` is a run that is out of fuel.
abbrev pub Run {ℓ} : Type ℓ → Type ℓ
Run A = Option (A × Client)

-- The disconnection, which stands behind the import of its module, is taken to come at once.
pub clear_auth : Client → Client
clear_auth c = record c { has_failed_refresh = true; log = disconnect ∷ c.log }

pub public_paths : List Text
public_paths =
    codes "/"
    ∷ codes "/login"
    ∷ codes "/signup"
    ∷ codes "/forgot-password"
    ∷ codes "/reset-password"
    ∷ []

abbrev pub has_text : Text → List Text → Bool
has_text t [] = false
has_text t (s ∷ ss) = s === t || has_text t ss

-- `window.location.pathname.replace(/\/$/, '') || '/'`
pub clean_path : Text → Text
unfolding drop_slash
clean_path p = if drop_slash p === [] then codes "/" else drop_slash p

pub is_public : Text → Bool
unfolding clean_path public_paths
is_public p = has_text (clean_path p) public_paths

-- `clearAuth()` and the way to the login page
pub expire : Client → Client
unfolding clear_auth
expire c =
    let d = clear_auth c in
    if is_public c.pathname then d else record d { log = go_to (codes "/login") ∷ d.log }

-- The milliseconds to wait, `none` for NaN.
pub retry_delay : Option (Option ℕ) → ℕ → Option ℕ
retry_delay none retry_count = some (2 ^ retry_count * 1000)
retry_delay (some none) retry_count = none
retry_delay (some (some seconds)) retry_count = some (seconds * 1000)

pub skips_refresh : Text → Bool
skips_refresh endpoint =
    includes (codes "/auth/refresh") endpoint
    || includes (codes "/auth/login") endpoint
    || includes (codes "/auth/register") endpoint

-- `const data = await res.json().catch(() => ({})); throw new APIError(data.error || …)`
pub failure : ℕ → Option Value → Thrown
failure status none = api_error (str (codes "Request failed")) status
failure status (some v) = elim (member v (codes "error")) [
  | none ↦ type_error
  | some e ↦ api_error (or e (str (codes "Request failed"))) status
]

pub body_of : Option Value → Result
body_of none = throws syntax_error
body_of (some v) = value v

-- `refreshToken`: what follows its request, and the `catch`
pub refreshed : Run Result → Run Bool
unfolding clear_auth
refreshed none = none
refreshed (some (value v, c)) = some (true, record c { has_failed_refresh = false })
refreshed (some (throws e, c)) = some (false, clear_auth (record c { has_failed_refresh = true }))

-- `refreshToken`, with the request that it sends
pub refresh_token : (Client → Run Result) → Client → Run Bool
unfolding refreshed
refresh_token send c = if c.has_failed_refresh then some (false, c) else refreshed (send c)

-- What follows `await refreshPromise`.
pub after_refresh : (Client → Run Result) → Run Bool → Run Result
unfolding expire
after_refresh again none = none
after_refresh again (some (true, c)) = again c
after_refresh again (some (false, c)) = some (throws session_expired, expire c)

-- What follows `await fetch`; `again` is the recursive call, with its `retryCount`.
pub respond :
    (again : ℕ → Client → Run Result) (refresh : Client → Run Bool) (endpoint : Text)
    (retry_count : ℕ)
    → Response
    → Client
    → Run Result
unfolding after_refresh body_of failure retry_delay
respond again refresh endpoint retry_count unreachable c = some (throws network_error, c)
respond again refresh endpoint retry_count (ok json) c = some (body_of json, c)
respond again refresh endpoint retry_count (not_ok status retry_after json) c =
    if status == 429 && ltb retry_count max_attempts
    then again (retry_count + 1)
        (record c { log = wait (retry_delay retry_after retry_count) ∷ c.log })
    else if status == 401 && (retry_count == 0 && not (skips_refresh endpoint))
    then after_refresh (again (retry_count + 1)) (refresh c)
    else some (throws (failure status json), c)

abbrev pub sent : Method → Text → Client → Client
sent method endpoint c = record c { calls = c.calls + 1; log = fetch method endpoint ∷ c.log }

abbrev pub refresh_endpoint : Text
refresh_endpoint = codes "/auth/refresh"

module _ (serve : ℕ → Response) where
  pub do_request : (fuel : ℕ) → Method → Text → ℕ → Client → Run Result
  do_request zero method endpoint retry_count c = none
  do_request (suc fuel) method endpoint retry_count c =
      respond (do_request fuel method endpoint)
        (refresh_token (do_request fuel post refresh_endpoint 0)) endpoint retry_count
        (serve c.calls) (sent method endpoint c)

-- `logout`: the request, its error ignored, then the end of the session.
pub end_session : Run Result → Run (Unit {0})
unfolding clear_auth
end_session none = none
end_session (some (r, c)) =
    let d = clear_auth c in some (tt, record d { log = go_to (codes "/login") ∷ d.log })

pub logout : (ℕ → Response) → ℕ → Client → Run (Unit {0})
unfolding end_session
logout serve fuel c = end_session (do_request serve fuel post (codes "/auth/logout") 0 c)
