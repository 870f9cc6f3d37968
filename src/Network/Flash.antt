-- ===== src/Network/Flash.antt =====
-- The flags that a return sets.
mod Tests
use noant.Base.{
  ℕ, ◌+◌, if_intro, Bool, true, false, leb, List, [], ◌∷◌, ◌≡◌, refl, arith, if◌then◌else◌,
}
use noant.Network.{
  Network, Event, online, offline, check_ok, check_failed, offline_timeout, server_timeout,
  online_effect, server_effect, set_online, set_server_down, healthy, failed, step, run, initial,
  equal, server_down_threshold,
}

-- A flag that is up while its side is up again has a timer that takes it back, and no timer runs
-- without its flag; the refs are those of the last render.
pub record IsValid (n : Network) : Type 0 where
  pub prev_online : n.prev_online ≡ n.is_online
  pub prev_server_down : n.prev_server_down ≡ n.is_server_down
  pub offline_ends : n.is_online ≡ true → n.was_offline ≡ n.offline_timer
  pub server_ends : n.is_server_down ≡ false → n.was_server_down ≡ n.server_timer
  pub offline_rests : n.is_online ≡ false → n.offline_timer ≡ false
  pub server_rests : n.is_server_down ≡ true → n.server_timer ≡ false

set_online-IsValid : (b : Bool) (n : Network) → IsValid n → IsValid (set_online b n)
unfolding set_online online_effect
set_online-IsValid b n v = ground arith

set_server_down-IsValid : (b : Bool) (n : Network) → IsValid n → IsValid (set_server_down b n)
unfolding set_server_down server_effect
set_server_down-IsValid b n v = ground arith

counted-IsValid :
    (k : ℕ) (n : Network) → IsValid n → IsValid (record n { consecutive_failures = k })
counted-IsValid k n v = ground arith

step-IsValid : (e : Event) (n : Network) → IsValid n → IsValid (step e n)
unfolding step healthy failed
step-IsValid online n v = set_online-IsValid true n v
step-IsValid offline n v = set_online-IsValid false n v
step-IsValid check_ok n v =
    set_server_down-IsValid false (record n { consecutive_failures = 0 }) (counted-IsValid 0 n v)
step-IsValid check_failed n v =
    let m = record n { consecutive_failures = n.consecutive_failures + 1 } in
    let w = counted-IsValid (n.consecutive_failures + 1) n v in
    if_intro IsValid (leb server_down_threshold m.consecutive_failures) (set_server_down true m) m
      (λ _. set_server_down-IsValid true m w) (λ _. w)
step-IsValid offline_timeout n v = ground arith
step-IsValid server_timeout n v = ground arith

run-IsValid_from : (es : List Event) (n : Network) → IsValid n → IsValid (run es n)
unfolding run
run-IsValid_from [] n v = v
run-IsValid_from (e ∷ es) n v = run-IsValid_from es (step e n) (step-IsValid e n v)

-- After any sequence of events from the first render: while the browser is online the flag of its
-- return is up just while the timer that takes it back is set, and while it is offline no such
-- timer is set; and the same of the server.
pub run-initial-IsValid : (on_line : Bool) (es : List Event) → IsValid (run es (initial on_line))
unfolding initial
run-initial-IsValid on_line es = run-IsValid_from es (initial on_line) (ground arith)
