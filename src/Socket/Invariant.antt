-- ===== src/Socket/Invariant.antt =====
-- What holds of the manager after any sequence of calls and browser events.
mod Tests
use noant.Base.{
  ℕ, ◌+◌, ◌≤◌, ◌^◌, leb, true, false, Bool-cases, Option, none, some, List, [], ◌∷◌, ◌≡◌, refl,
  arith, inl, inr,
}
use native.Mathlib.Nat.{one-le-pow}
use noant.Socket.{
  Manager, Env, Event, call_connect, call_reset, call_disconnect, socket_opened, socket_closed,
  socket_errored, timer_fired, fresh, drop_socket, drop_timer, backoff, schedule, open_socket,
  connect, on_close, disconnect, step, run, without, without_timer, has, has_timer, is_open,
  max_retries,
}

pow_pos : (k : ℕ) → 1 ≤ 2 ^ k
pow_pos k = one-le-pow k 2 (omega arith)

backoff_bounds : (n : ℕ) → (1000 ≤ backoff n) × (backoff n ≤ 30000)
unfolding backoff
backoff_bounds n = omega (arith, pow_pos)

abbrev socket_of : Option ℕ → List ℕ
socket_of none = []
socket_of (some s) = s ∷ []

-- At most one timer waits: then there is no socket, and its delay is between 1 and 30 seconds.
abbrev pub Waits : List (ℕ × ℕ) → Option ℕ → Option ℕ → Type 0
Waits [] ws timer = Unit
Waits ((t, d) ∷ []) ws timer = (ws ≡ none) × (timer ≡ some t) × (1000 ≤ d) × (d ≤ 30000)
Waits (_ ∷ _ ∷ _) ws timer = ⊥

pub record IsValid (m : Manager) : Type 0 where
  pub retries : m.retry_count ≤ max_retries
  pub live : m.attached ≡ socket_of m.ws
  pub waits : Waits m.pending m.ws m.reconnect_timer
  pub quiet : m.should_reconnect ≡ false → (m.ws ≡ none) × (m.pending ≡ [])

-- Neither a socket nor a timer is left.
record IsCleared (m n : Manager) : Type 0 where
  ws : n.ws ≡ none
  attached : n.attached ≡ []
  pending : n.pending ≡ []
  retry_count : n.retry_count ≡ m.retry_count
  next_socket : n.next_socket ≡ m.next_socket
  should_reconnect : n.should_reconnect ≡ m.should_reconnect

drop_both-IsCleared : (m : Manager) → IsValid m → IsCleared m (drop_timer (drop_socket m))
unfolding drop_timer drop_socket
drop_both-IsCleared m v = ground (arith)

-- `schedule` is called when nothing is left.
schedule-IsValid :
    (m : Manager)
    → m.retry_count ≤ max_retries
    → m.ws ≡ none
    → m.attached ≡ []
    → m.pending ≡ []
    → IsValid (schedule m)
unfolding schedule
schedule-IsValid m r w a p = ground (arith, backoff_bounds (m.retry_count + 1))

open_socket-IsValid :
    (env : Env) (m : Manager)
    → m.should_reconnect ≡ true
    → m.retry_count ≤ max_retries
    → m.ws ≡ none
    → m.attached ≡ []
    → m.pending ≡ []
    → IsValid (open_socket env m)
unfolding open_socket
open_socket-IsValid env m on r w a p = elim (Bool-cases (env.accepts m.url)) [
  | inl yes' ↦ rw yes' (ground arith)
  | inr no' ↦ rw no' (schedule-IsValid m r w a p)
]

IsCleared-IsValid : (m n : Manager) → IsCleared m n → IsValid m → IsValid n
IsCleared-IsValid m n c v = ground arith

abbrev cleared : Manager → Manager
cleared m = drop_timer (drop_socket m)

pub connect-IsValid : (env : Env) (m : Manager) → IsValid m → IsValid (connect env m)
unfolding connect
connect-IsValid env m v = elim (Bool-cases (is_open env m)) [
  | inl is_open' ↦ rw is_open' v
  | inr shut ↦ rw shut (elim (Bool-cases (leb max_retries (cleared m).retry_count)) [
    | inl spent ↦ rw spent (IsCleared-IsValid m (cleared m) (drop_both-IsCleared m v) v)
    | inr left ↦
        let c = drop_both-IsCleared m v in
        rw left (
          open_socket-IsValid env _ refl (omega (arith, c.retry_count, v.retries)) c.ws c.attached
            c.pending)
  ])
]

closed-IsValid :
    (m : Manager) (s : ℕ)
    → has s m.attached ≡ true
    → IsValid m
    → IsValid (on_close (record m { attached = without s m.attached }))
unfolding on_close
closed-IsValid m s h v =
    let gone : without s m.attached ≡ [] = ground arith in
    let idle : m.pending ≡ [] = ground arith in
    schedule-IsValid (record m { ws = none; attached = without s m.attached }) v.retries refl gone
      idle

fired-IsValid :
    (m : Manager) (t : ℕ)
    → has_timer t m.pending ≡ true
    → IsValid m
    → IsValid (record m { pending = without_timer t m.pending })
fired-IsValid m t h v = ground arith

disconnect-IsValid : (m : Manager) → IsValid m → IsValid (disconnect m)
unfolding disconnect drop_socket drop_timer
disconnect-IsValid m v = ground arith

-- Every call and every browser event keeps the invariant.
pub step-IsValid : (env : Env) (e : Event) (m : Manager) → IsValid m → IsValid (step env e m)
unfolding step
step-IsValid env call_connect m v = connect-IsValid env m v
step-IsValid env call_reset m v = ground arith
step-IsValid env call_disconnect m v = disconnect-IsValid m v
step-IsValid env (socket_opened s) m v = ground arith
step-IsValid env (socket_closed s) m v = elim (Bool-cases (has s m.attached)) [
  | inl known ↦ rw known (closed-IsValid m s known v)
  | inr unknown ↦ rw unknown v
]
step-IsValid env (socket_errored s) m v = ground arith
step-IsValid env (timer_fired t) m v = elim (Bool-cases (has_timer t m.pending)) [
  | inl waits ↦ rw waits (connect-IsValid env _ (fired-IsValid m t waits v))
  | inr gone ↦ rw gone v
]

-- After any sequence of calls, socket events and timers, whatever the browser answers, there are
-- at most 15 retries; the socket that can still report its end is the one the manager holds; at
-- most one timer waits, for 1 to 30 seconds, and only while there is no socket; and a manager
-- that is not to reconnect has neither a socket nor a timer.
pub run-IsValid : (events : List (Env × Event)) (m : Manager) → IsValid m → IsValid (run events m)
unfolding run
run-IsValid [] m v = v
run-IsValid ((env, e) ∷ rest) m v = run-IsValid rest (step env e m) (step-IsValid env e m v)

pub fresh-IsValid : IsValid fresh
fresh-IsValid = ground arith
