-- ===== src/Api/Request/Session.antt =====
-- What requests leave of the session.
mod Tests
use noant.Base.{
  ℕ, zero, suc, ◌+◌, ◌≤◌, ◌==◌, ltb, Text, codes, ◌===◌, Bool, true, false, not, ◌&&◌, ◌||◌,
  Bool-cases, Option, none, some, List, [], ◌∷◌, All, ◌≡◌, ◌≢◌, refl, sym, ◌∙◌, ap, arith, inl, inr,
  if◌then◌else◌,
}
use mathlib.Core.Path.{subst}
use noant.Json.{Value}
use noant.Api.Request.{
  Method, get, post, put, delete, Response, ok, not_ok, unreachable, Result, value, throws,
  session_expired, Thrown, Effect, fetch, wait, disconnect, go_to, Client, Run, respond,
  after_refresh, refresh_token, refreshed, sent, do_request, skips_refresh, refresh_endpoint,
  max_attempts, retry_delay, failure, expire, clear_auth, body_of, is_public, api_error,
  network_error, syntax_error, type_error, end_session, logout,
}
use noant.Api.Request.Bounds.{Within, do_request-Within}

-- The fetches of a refresh.
abbrev pub refreshes : List Effect → ℕ
refreshes [] = 0
refreshes (fetch method endpoint ∷ log) =
    if endpoint === refresh_endpoint then suc (refreshes log) else refreshes log
refreshes (_ ∷ log) = refreshes log

-- The client, once a refresh has failed, and no refresh more than before.
abbrev Stays {ℓ} : {A : Type ℓ} → ℕ → Run A → Type 0
Stays n none = Unit
Stays n (some (x, d)) = (d.has_failed_refresh ≡ true) × (refreshes d.log ≡ n)

if-Stays :
    (b : Bool) (n : ℕ) (x y : Run Result) → Stays n x → Stays n y → Stays n (if b then x else y)
if-Stays true n x y v w = v
if-Stays false n x y v w = w

refresh_token_failed :
    (send : Client → Run Result) (c : Client)
    → c.has_failed_refresh ≡ true
    → refresh_token send c ≡ some (false, c)
unfolding refresh_token
refresh_token_failed send c f = ap (λ b. if b then some (false, c) else refreshed (send c)) f

expire-Stays :
    (again : Client → Run Result) (c : Client) (n : ℕ)
    → refreshes c.log ≡ n
    → Stays n (after_refresh again (some (false, c)))
unfolding after_refresh expire
expire-Stays again c n e = ground arith

respond-Stays :
    (again : ℕ → Client → Run Result) (send : Client → Run Result) (endpoint : Text) (r n : ℕ)
    (response : Response) (c : Client)
    → c.has_failed_refresh ≡ true
    → refreshes c.log ≡ n
    → ((d : Client) → d.has_failed_refresh ≡ true → refreshes d.log ≡ n → Stays n (again (r + 1) d))
    → Stays n (respond again (refresh_token send) endpoint r response c)
unfolding respond
respond-Stays again send endpoint r n unreachable c f e next = (f, e)
respond-Stays again send endpoint r n (ok json) c f e next = (f, e)
respond-Stays again send endpoint r n (not_ok status after json) c f e next =
    let last : Run Result = some (throws (failure status json), c) in
    let later = record c { log = wait (retry_delay after r) ∷ c.log } in
    if-Stays (status == 429 && ltb r max_attempts) n (again (r + 1) later) _ (next later f e) (
      if-Stays (status == 401 && (r == 0 && not (skips_refresh endpoint))) n
        (after_refresh (again (r + 1)) (refresh_token send c)) last
        (subst (λ run. Stays n (after_refresh (again (r + 1)) run))
          (sym (refresh_token_failed send c f)) (expire-Stays (again (r + 1)) c n e))
        (f, e))

do_request-Stays :
    (serve : ℕ → Response) (fuel : ℕ) (method : Method) (endpoint : Text) (r n : ℕ) (c : Client)
    → (endpoint === refresh_endpoint) ≡ false
    → c.has_failed_refresh ≡ true
    → refreshes c.log ≡ n
    → Stays n (do_request serve fuel method endpoint r c)
unfolding do_request
do_request-Stays serve zero method endpoint r n c ne f e = tt
do_request-Stays serve (suc fuel) method endpoint r n c ne f e =
    respond-Stays (do_request serve fuel method endpoint) _ endpoint r n (serve c.calls)
      (sent method endpoint c) f (rw ne e)
      (λ d g h. do_request-Stays serve fuel method endpoint (r + 1) n d ne g h)

-- The client goes on, whatever the result.
abbrev and_then : Run Result → (Client → Option Client) → Option Client
and_then none next = none
and_then (some (result, d)) next = next d

-- A row of requests, each with its method and its endpoint; the errors are ignored.
pub requests : (ℕ → Response) → List (Method × Text) → Client → Option Client
requests serve [] c = some c
requests serve ((method, endpoint) ∷ rest) c =
    and_then (do_request serve 5 method endpoint 0 c) (λ d. requests serve rest d)

and_then-Stays :
    (run : Run Result) (next : Client → Option Client) (n k m : ℕ)
    → Stays n run
    → Within m k run
    → ((c : Client)
        → c.has_failed_refresh ≡ true
        → (d : Client) × (next c ≡ some d)
          × (d.has_failed_refresh ≡ true)
          × (refreshes d.log ≡ refreshes c.log))
    → (d : Client) × (and_then run next ≡ some d)
      × (d.has_failed_refresh ≡ true)
      × (refreshes d.log ≡ n)
and_then-Stays none next n k m s w h = elim w [ ]
and_then-Stays (some (result, c)) next n k m s w h =
    let (d, e, f, g) = h c s.0 in (d, e, f, g ∙ s.1)

-- Once a refresh has failed, or `clearAuth` was called, no request refreshes the session again:
-- whatever is requested, a login included, and whatever the server answers, all requests end, the
-- mark stays, and `/auth/refresh` is not asked. (`setToken`, which takes the mark away, is called
-- nowhere.)
pub requests-has_failed_refresh :
    (serve : ℕ → Response) (row : List (Method × Text)) (c : Client)
    → All (λ p. (p.1 === refresh_endpoint) ≡ false) row
    → c.has_failed_refresh ≡ true
    → (d : Client) × (requests serve row c ≡ some d)
      × (d.has_failed_refresh ≡ true)
      × (refreshes d.log ≡ refreshes c.log)
unfolding requests
requests-has_failed_refresh serve [] c ne f = (c, refl, f, refl)
requests-has_failed_refresh serve ((method, endpoint) ∷ rest) c ne f =
    and_then-Stays (do_request serve 5 method endpoint 0 c) (λ d. requests serve rest d)
      (refreshes c.log) c.calls 8
      (do_request-Stays serve 5 method endpoint 0 (refreshes c.log) c ne.0 f refl)
      (do_request-Within serve 5 method endpoint c (omega arith))
      (λ d g. requests-has_failed_refresh serve rest d ne.1 g)
