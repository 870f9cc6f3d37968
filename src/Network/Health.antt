-- ===== src/Network/Health.antt =====
-- When the server counts as down.
mod Tests
use noant.Base.{
  ℕ, zero, ◌+◌, leb, Bool, true, false, List, [], ◌∷◌, ◌≡◌, refl, ◌∙◌, if◌then◌else◌, arith,
}
use noant.Network.{
  Network, Event, online, offline, check_ok, check_failed, offline_timeout, server_timeout,
  online_effect, server_effect, set_online, set_server_down, healthy, failed, step, run, initial,
  server_down_threshold, equal,
}

-- The checks that failed since the last that did not, `n` of them before `es`.
abbrev pub failures : ℕ → List Event → ℕ
failures n [] = n
failures n (check_ok ∷ es) = failures 0 es
failures n (check_failed ∷ es) = failures (n + 1) es
failures n (online ∷ es) = failures n es
failures n (offline ∷ es) = failures n es
failures n (offline_timeout ∷ es) = failures n es
failures n (server_timeout ∷ es) = failures n es

-- The flag is that of the count.
abbrev Agrees : ℕ → Network → Type 0
Agrees k n = (n.consecutive_failures ≡ k) × (n.is_server_down ≡ leb server_down_threshold k)

set_server_down_lem :
    (b : Bool) (n : Network)
    → ((set_server_down b n).consecutive_failures ≡ n.consecutive_failures)
      × ((set_server_down b n).is_server_down ≡ b)
unfolding set_server_down server_effect
set_server_down_lem b n = ground arith

set_online_lem :
    (b : Bool) (n : Network)
    → ((set_online b n).consecutive_failures ≡ n.consecutive_failures)
      × ((set_online b n).is_server_down ≡ n.is_server_down)
unfolding set_online online_effect
set_online_lem b n = ground arith

healthy-Agrees : (n : Network) → Agrees 0 (healthy n)
unfolding healthy
healthy-Agrees n = set_server_down_lem false (record n { consecutive_failures = 0 })

failed-Agrees : (k : ℕ) (n : Network) → Agrees k n → Agrees (k + 1) (failed n)
unfolding failed
failed-Agrees k n h = ground (
  arith,
  set_server_down_lem true (record n { consecutive_failures = n.consecutive_failures + 1 }),
)

timeouts-Agree :
    (k : ℕ) (n : Network)
    → Agrees k n
    → Agrees k (step offline_timeout n) × Agrees k (step server_timeout n)
unfolding step
timeouts-Agree k n h = ground arith

run-Agrees :
    (es : List Event) (k : ℕ) (n : Network) → Agrees k n → Agrees (failures k es) (run es n)
unfolding run step
run-Agrees [] k n h = h
run-Agrees (online ∷ es) k n h =
    let l = set_online_lem true n in run-Agrees es k (set_online true n) (l.0 ∙ h.0, l.1 ∙ h.1)
run-Agrees (offline ∷ es) k n h =
    let l = set_online_lem false n in run-Agrees es k (set_online false n) (l.0 ∙ h.0, l.1 ∙ h.1)
run-Agrees (check_ok ∷ es) k n h = run-Agrees es 0 (healthy n) (healthy-Agrees n)
run-Agrees (check_failed ∷ es) k n h = run-Agrees es (k + 1) (failed n) (failed-Agrees k n h)
run-Agrees (offline_timeout ∷ es) k n h = run-Agrees es k _ (timeouts-Agree k n h).0
run-Agrees (server_timeout ∷ es) k n h = run-Agrees es k _ (timeouts-Agree k n h).1

-- After any sequence of events the server counts as down just if the last three health checks, or
-- more, have failed.
pub is_server_down-run :
    (on_line : Bool) (es : List Event)
    → (run es (initial on_line)).is_server_down ≡ leb 3 (failures 0 es)
unfolding initial
is_server_down-run on_line es = (run-Agrees es 0 (initial on_line) (refl, refl)).1
