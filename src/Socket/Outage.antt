-- ===== src/Socket/Outage.antt =====
-- Reconnecting while the server is down, and the end of it.
mod Tests
use noant.Base.{
  ℕ, suc, zero, ◌+◌, ◌-◌, ◌≤◌, ◌<◌, ◌*◌, ◌^◌, min, ltb, leb, ◌==◌, ==_refl, Bool, true, false, not,
  Bool-cases, Option, none, some, List, [], ◌∷◌, ◌≡◌, ◌≢◌, refl, arith, inl, inr, if◌then◌else◌,
  keep_if, All, Text,
}
use Prim.Native.Nat.add
use native.Mathlib.Decide.{dec_lt}
use noant.Endpoint.{socket_url}
use noant.Socket.{
  Manager, Env, Event, call_connect, call_reset, call_disconnect, socket_opened, socket_closed,
  socket_errored, timer_fired, fresh, connect, disconnect, step, run, backoff, max_retries,
}
use noant.Socket.Invariant.{IsValid}

-- The manager's socket closes.
pub lose : Env → Manager → Manager
lose env m = elim m.ws [ none ↦ m | some s ↦ step env (socket_closed s) m ]

-- The timer that waits fires.
pub wake : Env → Manager → Manager
wake env m = elim m.pending [ [] ↦ m | p ∷ _ ↦ step env (timer_fired p.0) m ]

-- The server takes no connection: each socket closes before it opens.
pub outage : Env → ℕ → Manager → Manager
unfolding lose wake
outage env zero m = m
outage env (suc k) m = let n = outage env k m in wake env (lose env n)

abbrev pub Reaches : Env → Type 0
Reaches env = (url : Text) → env.accepts url ≡ true

-- The manager waits for socket `k`, the `k + 1`-st that it made.
record IsTrying (k : ℕ) (m : Manager) : Type 0 where
  ws : m.ws ≡ some k
  attached : m.attached ≡ k ∷ []
  pending : m.pending ≡ []
  retry_count : m.retry_count ≡ k
  next_socket : m.next_socket ≡ suc k
  should_reconnect : m.should_reconnect ≡ true

pub record IsExhausted (m : Manager) : Type 0 where
  pub ws : m.ws ≡ none
  pub attached : m.attached ≡ []
  pub pending : m.pending ≡ []
  pub retry_count : m.retry_count ≡ max_retries
  pub next_socket : m.next_socket ≡ max_retries

connect_first : (env : Env) → Reaches env → IsTrying 0 (connect env fresh)
unfolding connect
connect_first env r = ground (arith, r (socket_url env.ws_url env.api_url env.secure env.host))

-- It waits for timer `t`, to make socket `k`.
record IsWaiting (k t : ℕ) (m : Manager) : Type 0 where
  ws : m.ws ≡ none
  attached : m.attached ≡ []
  pending : m.pending ≡ (t, backoff k) ∷ []
  retry_count : m.retry_count ≡ k
  next_socket : m.next_socket ≡ k
  should_reconnect : m.should_reconnect ≡ true

lose-IsWaiting :
    (env : Env) (k : ℕ) (m : Manager)
    → k < max_retries
    → IsTrying k m
    → IsWaiting (suc k) m.next_timer (lose env m)
unfolding lose step
lose-IsWaiting env k m h t = rw t.ws (ground arith)

wake-IsTrying :
    (env : Env) (k t : ℕ) (m : Manager)
    → Reaches env
    → k < max_retries
    → IsWaiting k t m
    → IsTrying k (wake env m)
unfolding wake step
wake-IsTrying env k t m r h w =
    rw w.pending (ground (arith, r (socket_url env.ws_url env.api_url env.secure env.host)))

wake-IsExhausted :
    (env : Env) (t : ℕ) (m : Manager) → IsWaiting max_retries t m → IsExhausted (wake env m)
unfolding wake step
wake-IsExhausted env t m w = rw w.pending (ground arith)

round_after : (env : Env) (m : Manager) → IsExhausted m → IsExhausted (wake env (lose env m))
unfolding wake lose
round_after env m x = ground arith

outage-IsTrying :
    (env : Env) (k : ℕ)
    → Reaches env
    → k < max_retries
    → IsTrying k (outage env k (connect env fresh))
unfolding outage
outage-IsTrying env zero r h = connect_first env r
outage-IsTrying env (suc k) r h =
    wake-IsTrying env (suc k) _ _ r h
      (lose-IsWaiting env k _ (omega arith) (outage-IsTrying env k r (omega arith)))

outage-IsExhausted_add :
    (env : Env) (j : ℕ) → Reaches env → IsExhausted (outage env (j + 15) (connect env fresh))
unfolding outage
outage-IsExhausted_add env zero r =
    wake-IsExhausted env _ _
      (lose-IsWaiting env 14 _ (omega arith) (outage-IsTrying env 14 r (omega arith)))
outage-IsExhausted_add env (suc j) r =
    rw add.suc (round_after env _ (outage-IsExhausted_add env j r))

-- While no socket opens, the manager makes one socket more in each round, up to 15 of them: the
-- first and 14 retries. The timer that it sets after losing the fifteenth finds the retries spent
-- and makes none.
pub next_socket-outage :
    (env : Env) (k : ℕ)
    → Reaches env
    → (outage env k (connect env fresh)).next_socket ≡ min (k + 1) max_retries
next_socket-outage env k r = elim (dec_lt k max_retries) [
  | yes h ↦ omega (arith, (outage-IsTrying env k r h).next_socket)
  | no h ↦
      let e : k ≡ (k - 15) + 15 = omega arith in
      rw e (omega (arith, (outage-IsExhausted_add env (k - 15) r).next_socket))
]

backoff-suc : (k : ℕ) → backoff (suc k) ≡ min (1000 * 2 ^ k) 30000
unfolding backoff
backoff-suc k = let e : suc k - 1 ≡ k = omega arith in rw e

-- When socket `k` closes, for `k` from 0 to 14, the manager sets one timer, and its delay is
-- `2 ^ k` seconds, but at most 30 seconds.
pub pending-lose-outage :
    (env : Env) (k : ℕ)
    → Reaches env
    → k < max_retries
    → (t : ℕ) × ((lose env (outage env k (connect env fresh))).pending
        ≡ (t, min (1000 * 2 ^ k) 30000) ∷ [])
pending-lose-outage env k r h = (
  (outage env k (connect env fresh)).next_timer,
  rw (← backoff-suc k) (lose-IsWaiting env k _ h (outage-IsTrying env k r h)).pending,
)

-- After 15 lost sockets or more, none of which opened, there is neither a socket nor a timer, and
-- the retries are spent.
pub outage-IsExhausted :
    (env : Env) (k : ℕ)
    → Reaches env
    → max_retries ≤ k
    → IsExhausted (outage env k (connect env fresh))
outage-IsExhausted env k r h =
    let e : k ≡ (k - 15) + 15 = omega arith in rw e (outage-IsExhausted_add env (k - 15) r)

-- What is neither `reset`, `disconnect` nor a socket that opens.
abbrev pub IsPassive : Event → Type 0
IsPassive call_reset = ⊥
IsPassive call_disconnect = ⊥
IsPassive (socket_opened s) = ⊥
IsPassive _ = Unit

step-IsExhausted :
    (env : Env) (e : Event) (m : Manager) → IsPassive e → IsExhausted m → IsExhausted (step env e m)
unfolding step
step-IsExhausted env call_connect m p x = ground arith
step-IsExhausted env (socket_closed s) m p x = ground arith
step-IsExhausted env (socket_errored s) m p x = ground arith
step-IsExhausted env (timer_fired t) m p x = ground arith
step-IsExhausted env call_reset m p x = elim p [ ]
step-IsExhausted env call_disconnect m p x = elim p [ ]
step-IsExhausted env (socket_opened s) m p x = elim p [ ]

-- A manager without a socket and a timer, its retries spent, stays so: no call of `connect`, timer
-- or late event of a socket brings a socket back, unless a socket opens, or `reset` or `disconnect`
-- is called.
pub run-IsExhausted :
    (events : List (Env × Event)) (m : Manager)
    → All (λ p. IsPassive p.1) events
    → IsExhausted m
    → IsExhausted (run events m)
unfolding run
run-IsExhausted [] m p x = x
run-IsExhausted ((env, e) ∷ rest) m p x =
    run-IsExhausted rest (step env e m) p.1 (step-IsExhausted env e m p.0 x)
