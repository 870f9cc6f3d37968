-- ===== src/Socket/Quiet.antt =====
-- After `disconnect` the manager keeps still until `connect` is called.
use noant.Base.{
  ℕ, true, false, none, some, List, [], ◌∷◌, ◌≡◌, ◌≢◌, refl, ◌∙◌, ◌<◌, Text, arith, All,
}
use noant.Endpoint.{socket_url}
use noant.Socket.{
  Manager, Env, Event, call_connect, call_reset, call_disconnect, socket_opened, socket_closed,
  socket_errored, timer_fired, disconnect, drop_socket, drop_timer, step, run, on_error, connect,
  close, is_opened, max_retries,
}
use noant.Socket.Invariant.{IsValid}

pub record IsQuiet (m : Manager) : Type 0 where
  pub ws : m.ws ≡ none
  pub attached : m.attached ≡ []
  pub pending : m.pending ≡ []
  pub should_reconnect : m.should_reconnect ≡ false

pub disconnect-IsQuiet : (m : Manager) → IsValid m → IsQuiet (disconnect m)
unfolding disconnect drop_socket drop_timer
disconnect-IsQuiet m v = ground arith

next_socket-disconnect : (m : Manager) → (disconnect m).next_socket ≡ m.next_socket
unfolding disconnect drop_socket drop_timer
next_socket-disconnect m = ground arith

next_timer-disconnect : (m : Manager) → (disconnect m).next_timer ≡ m.next_timer
unfolding disconnect drop_socket drop_timer
next_timer-disconnect m = ground arith

-- What the manager is, besides the log and the retries.
record IsSame (m n : Manager) : Type 0 where
  quiet : IsQuiet n
  next_socket : n.next_socket ≡ m.next_socket
  next_timer : n.next_timer ≡ m.next_timer

step-IsSame :
    (env : Env) (e : Event) (m : Manager) → e ≢ call_connect → IsQuiet m → IsSame m (step env e m)
unfolding step
step-IsSame env call_connect m ne q = absurd (ne refl)
step-IsSame env call_reset m ne q = ground arith
step-IsSame env call_disconnect m ne q = ground arith
step-IsSame env (socket_opened s) m ne q = ground arith
step-IsSame env (socket_closed s) m ne q = ground arith
step-IsSame env (socket_errored s) m ne q = ground arith
step-IsSame env (timer_fired t) m ne q = ground arith

run-IsSame :
    (events : List (Env × Event)) (m : Manager)
    → All (λ p. p.1 ≢ call_connect) events
    → IsQuiet m
    → IsSame m (run events m)
unfolding run
run-IsSame [] m ne q = record { quiet = q; next_socket = refl; next_timer = refl }
run-IsSame ((env, e) ∷ rest) m ne q =
    let s = step-IsSame env e m ne.0 q in
    let r = run-IsSame rest (step env e m) ne.1 s.quiet in
    record {
      quiet = r.quiet;
      next_socket = r.next_socket ∙ s.next_socket;
      next_timer = r.next_timer ∙ s.next_timer;
    }

-- After `disconnect`, and until `connect` is called, whatever the sockets and timers still report:
-- there is no socket, no timer waits, and none is made.
pub run-disconnect-IsQuiet :
    (events : List (Env × Event)) (m : Manager)
    → All (λ p. p.1 ≢ call_connect) events
    → IsValid m
    → IsQuiet (run events (disconnect m))
      × ((run events (disconnect m)).next_socket ≡ m.next_socket)
      × ((run events (disconnect m)).next_timer ≡ m.next_timer)
run-disconnect-IsQuiet events m ne v =
    let s = run-IsSame events (disconnect m) ne (disconnect-IsQuiet m v) in
    (s.quiet, s.next_socket ∙ next_socket-disconnect m, s.next_timer ∙ next_timer-disconnect m)

ws-connect :
    (env : Env) (m : Manager) (old : ℕ)
    → m.ws ≡ some old
    → is_opened (env.ready old) ≡ false
    → m.retry_count < max_retries
    → ((url : Text) → env.accepts url ≡ true)
    → (connect env m).ws ≡ some m.next_socket
unfolding connect
ws-connect env m old w o h a =
    rw w (ground (arith, a (socket_url env.ws_url env.api_url env.secure env.host)))

-- `onerror` names the manager's socket, not its own: when a socket that is not yet open is replaced
-- by `connect`, its error closes the socket `n` that took its place.
pub log-errored-connect :
    (env : Env) (m : Manager) (old : ℕ)
    → m.ws ≡ some old
    → is_opened (env.ready old) ≡ false
    → m.retry_count < max_retries
    → ((url : Text) → env.accepts url ≡ true)
    → (step env (socket_errored old) (connect env m)).log
      ≡ close m.next_socket ∷ (connect env m).log
unfolding step
log-errored-connect env m old w o h a = rw (ws-connect env m old w o h a, on_error)
