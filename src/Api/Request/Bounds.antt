-- ===== src/Api/Request/Bounds.antt =====
-- Every request comes to an end, after a bounded number of fetches.
mod Tests
use noant.Base.{
  ◌∷◌, ℕ, zero, suc, ◌+◌, ◌-◌, ◌≤◌, ◌<◌, ◌==◌, ltb, Text, codes, Bool, true, false, not, ◌&&◌,
  Bool-cases, Option, none, some, ◌≡◌, refl, arith, inl, inr, if◌then◌else◌,
}
use noant.Json.{Value}
use noant.Api.Request.{
  Method, post, Response, ok, not_ok, unreachable, Result, value, throws, Client, Run, respond,
  after_refresh, refresh_token, refreshed, do_request, sent, skips_refresh, refresh_endpoint,
  max_attempts, retry_delay, failure, wait, expire, clear_auth,
}

-- The run ends, `n` fetches after the `k`-th at the latest.
abbrev pub Within {ℓ} : {A : Type ℓ} → ℕ → ℕ → Run A → Type 0
Within n k none = ⊥
Within n k (some (x, c)) = (k ≤ c.calls) × (c.calls ≤ k + n)

-- A 401 at this point is not answered by a refresh.
abbrev pub NoRefresh : ℕ → Text → Type 0
NoRefresh retry_count endpoint = (retry_count == 0 && not (skips_refresh endpoint)) ≡ false

Within-suc : (n k i : ℕ) (run : Run Result) → suc k ≤ n → Within k (i + 1) run → Within n i run
Within-suc n k i none h w = elim w [ ]
Within-suc n k i (some (x, c)) h w = omega arith

Within-le : (n k i : ℕ) (run : Run Result) → n ≤ k → Within n i run → Within k i run
Within-le n k i none h w = elim w [ ]
Within-le n k i (some (x, c)) h w = omega arith

NoRefresh-suc : (r : ℕ) (endpoint : Text) → NoRefresh (r + 1) endpoint
NoRefresh-suc r endpoint = ground arith

respond-Within :
    (again : ℕ → Client → Run Result) (refresh : Client → Run Bool) (endpoint : Text) (r n : ℕ)
    (response : Response) (c : Client)
    → NoRefresh r endpoint
    → ((d : Client) → r < max_attempts → Within n d.calls (again (r + 1) d))
    → Within n c.calls (respond again refresh endpoint r response c)
unfolding respond
respond-Within again refresh endpoint r n unreachable c q next = omega arith
respond-Within again refresh endpoint r n (ok json) c q next = omega arith
respond-Within again refresh endpoint r n (not_ok status after json) c q next =
    elim (Bool-cases (status == 429 && ltb r max_attempts)) [
      | inl e ↦ rw e (next _ (ground arith))
      | inr e ↦
          rw (e, q)
            (elim (Bool-cases (status == 401)) [
              | inl s ↦ rw s (omega arith)
              | inr s ↦ rw s (omega arith)
            ])
    ]

pub do_request_quick :
    (serve : ℕ → Response) (fuel : ℕ) (method : Method) (endpoint : Text) (r : ℕ) (c : Client)
    → NoRefresh r endpoint
    → r ≤ max_attempts
    → 4 ≤ fuel + r
    → Within (4 - r) c.calls (do_request serve fuel method endpoint r c)
unfolding do_request
do_request_quick serve zero method endpoint r c q h f = absurd (omega arith)
do_request_quick serve (suc fuel) method endpoint r c q h f =
    Within-suc (4 - r) (3 - r) c.calls _ (omega arith) (
      respond-Within _ _ endpoint r (3 - r) (serve c.calls) (sent method endpoint c) q λ d lt.
        Within-le (4 - (r + 1)) (3 - r) d.calls _ (omega arith) (
          do_request_quick serve fuel method endpoint (r + 1) d (NoRefresh-suc r endpoint)
            (omega arith) (omega arith)))

refreshed-Within : (n k : ℕ) (run : Run Result) → Within n k run → Within n k (refreshed run)
unfolding refreshed
refreshed-Within n k none w = w
refreshed-Within n k (some (value v, d)) w = w
refreshed-Within n k (some (throws e, d)) w = w

if-Within :
    {A : Type 0} (b : Bool) (n k : ℕ) (x y : Run A)
    → Within n k x
    → Within n k y
    → Within n k (if b then x else y)
if-Within true n k x y v w = v
if-Within false n k x y v w = w

refresh_token-Within :
    (send : Client → Run Result) (c : Client) (n : ℕ)
    → Within n c.calls (send c)
    → Within n c.calls (refresh_token send c)
unfolding refresh_token
refresh_token-Within send c n w =
    if-Within c.has_failed_refresh n c.calls (some (false, c)) (refreshed (send c)) (omega arith)
      (refreshed-Within n c.calls (send c) w)

Within-then :
    (n k i j : ℕ) (run : Run Result) → i ≤ j → j ≤ i + n → Within k j run → Within (n + k) i run
Within-then n k i j none p q w = w
Within-then n k i j (some (x, c)) p q w = omega arith

after_refresh-Within :
    (again : Client → Run Result) (run : Run Bool) (n k i : ℕ)
    → Within n i run
    → ((d : Client) → Within k d.calls (again d))
    → Within (n + k) i (after_refresh again run)
unfolding after_refresh expire
after_refresh-Within again none n k i w next = w
after_refresh-Within again (some (true, c)) n k i w next =
    Within-then n k i c.calls (again c) w.0 w.1 (next c)
after_refresh-Within again (some (false, c)) n k i w next = ground arith

-- A request at its first attempt, for any endpoint: a rate limit is retried, a 401 refreshed.
respond_first :
    (again : ℕ → Client → Run Result) (refresh : Client → Run Bool) (endpoint : Text)
    (response : Response) (c : Client)
    → ((d : Client) → Within 3 d.calls (again 1 d))
    → Within 4 c.calls (refresh c)
    → Within 7 c.calls (respond again refresh endpoint 0 response c)
unfolding respond
respond_first again refresh endpoint unreachable c next w = omega arith
respond_first again refresh endpoint (ok json) c next w = omega arith
respond_first again refresh endpoint (not_ok status after json) c next w =
    let last : Run Result = some (throws (failure status json), c) in
    let ended = after_refresh (again 1) (refresh c) in
    let later = record c { log = wait (retry_delay after 0) ∷ c.log } in
    if-Within (status == 429 && true) 7 c.calls (again 1 later) _
      (Within-le 3 7 c.calls (again 1 later) (omega arith) (next later))
      (if-Within (status == 401 && not (skips_refresh endpoint)) 7 c.calls ended last
        (after_refresh-Within (again 1) (refresh c) 4 3 c.calls w next) (omega arith))

-- With fuel 5 every request ends, whatever the server answers, also when it answers only with rate
-- limits or with 401: after at most 8 fetches, those of a refresh included.
pub do_request-Within :
    (serve : ℕ → Response) (fuel : ℕ) (method : Method) (endpoint : Text) (c : Client)
    → 5 ≤ fuel
    → Within 8 c.calls (do_request serve fuel method endpoint 0 c)
unfolding do_request skips_refresh
do_request-Within serve zero method endpoint c f = absurd (omega arith)
do_request-Within serve (suc fuel) method endpoint c f = Within-suc 8 7 c.calls _ (omega arith) (
    respond_first _ _ endpoint (serve c.calls) (sent method endpoint c)
      (λ d. do_request_quick serve fuel method endpoint 1 d refl (omega arith) (omega arith))
      (refresh_token-Within _ (sent method endpoint c) 4 (
        do_request_quick serve fuel post refresh_endpoint 0 (sent method endpoint c) refl
          (omega arith) (omega arith))))
