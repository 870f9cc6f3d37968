-- ===== src/Socket.antt =====
-- `WebSocketManager` of frontend/src/lib/websocket.ts. The browser's sockets and timers are
-- numbers that the browser hands out; `log` holds the calls that the manager makes on the browser
-- and on its handlers, the newest first.
pub mod Message
pub mod Invariant
pub mod Quiet
pub mod Outage
pub mod Handlers
use noant.Base.{
  ℕ, suc, ◌+◌, ◌-◌, ◌*◌, ◌^◌, min, ltb, leb, ◌==◌, Text, Bool, true, false, ◌&&◌, not, Option, none,
  some, List, [], ◌∷◌, ◌++◌, keep_if, if◌then◌else◌,
}
use noant.Json.{Value}
use noant.Endpoint.{socket_url}

abbrev pub max_retries : ℕ
max_retries = 15

abbrev pub max_retry_delay : ℕ
max_retry_delay = 30000

abbrev pub initial_retry_delay : ℕ
initial_retry_delay = 1000

-- `WebSocket.readyState`
pub data ReadyState : Type 0 where
  connecting opened closing closed : ReadyState

abbrev pub is_opened : ReadyState → Bool
is_opened opened = true
is_opened _ = false

-- `WSMessage` of frontend/src/types/index.ts
pub record WsMessage : Type 0 where
  pub type : Value
  pub conversation_id : Value
  pub content : Value
  pub sender_type : Value
  pub timestamp : Value
  pub payload : Value

pub data Effect : Type 0 where
  create : ℕ → Text → Effect
  close : ℕ → Effect
  set_timer : ℕ → ℕ → Effect
  clear_timer : ℕ → Effect
  call : ℕ → WsMessage → Effect

-- The fields of the class; then the browser's part: the sockets whose `onclose` is still set and
-- has not run, the timers (handle, delay) that wait, and the next free numbers.
pub record Manager : Type 0 where
  pub ws : Option ℕ
  pub handlers : List ℕ
  pub reconnect_timer : Option ℕ
  pub url : Text
  pub should_reconnect : Bool
  pub retry_count : ℕ
  pub attached : List ℕ
  pub pending : List (ℕ × ℕ)
  pub next_socket : ℕ
  pub next_timer : ℕ
  pub log : List Effect

abbrev pub fresh : Manager
fresh = record {
  ws = none;
  handlers = [];
  reconnect_timer = none;
  url = [];
  should_reconnect = false;
  retry_count = 0;
  attached = [];
  pending = [];
  next_socket = 0;
  next_timer = 0;
  log = [];
}

-- What the manager reads of its surroundings: each socket's state, whether `new WebSocket(url)`
-- returns (it throws on an address that the browser refuses), the build's variables and the page.
pub record Env : Type 0 where
  pub ready : ℕ → ReadyState
  pub accepts : Text → Bool
  pub ws_url : Text
  pub api_url : Text
  pub secure : Bool
  pub host : Text

abbrev pub without : ℕ → List ℕ → List ℕ
without s = keep_if (λ t. not (t == s))

abbrev pub without_timer : ℕ → List (ℕ × ℕ) → List (ℕ × ℕ)
without_timer t = keep_if (λ p. not (p.0 == t))

-- `this.ws.onclose = null; this.ws.close(); this.ws = null`, if there is a socket
drop_socket : Manager → Manager
drop_socket m = elim m.ws [
  | none ↦ m
  | some s ↦ record m { ws = none; attached = without s m.attached; log = close s ∷ m.log }
]

-- `clearTimeout(this.reconnectTimer); this.reconnectTimer = null`, if there is a timer
drop_timer : Manager → Manager
drop_timer m = elim m.reconnect_timer [
  | none ↦ m
  | some t ↦ record m {
    reconnect_timer = none;
    pending = without_timer t m.pending;
    log = clear_timer t ∷ m.log;
  }
]

-- `Math.min(initialRetryDelay * Math.pow(2, retryCount - 1), maxRetryDelay)`
pub backoff : ℕ → ℕ
backoff retry_count = min (initial_retry_delay * 2 ^ (retry_count - 1)) max_retry_delay

-- the body of `onclose`, and of the `catch`, behind `this.ws = null`
schedule : Manager → Manager
schedule m =
    if m.should_reconnect && ltb m.retry_count max_retries
    then record m {
      retry_count = m.retry_count + 1;
      reconnect_timer = some m.next_timer;
      pending = (m.next_timer, backoff (m.retry_count + 1)) ∷ m.pending;
      next_timer = m.next_timer + 1;
      log = set_timer m.next_timer (backoff (m.retry_count + 1)) ∷ m.log;
    }
    else m

-- `try { this.ws = new WebSocket(this.url) … } catch { … }`
open_socket : Env → Manager → Manager
unfolding schedule
open_socket env m =
    if env.accepts m.url
    then record m {
      ws = some m.next_socket;
      attached = m.next_socket ∷ m.attached;
      next_socket = m.next_socket + 1;
      log = create m.next_socket m.url ∷ m.log;
    }
    else schedule m

is_open : Env → Manager → Bool
is_open env m = elim m.ws [ none ↦ false | some s ↦ is_opened (env.ready s) ]

pub connect : Env → Manager → Manager
unfolding drop_socket drop_timer open_socket is_open
connect env m =
    if is_open env m
    then m
    else let n = drop_timer (drop_socket m) in
      if leb max_retries n.retry_count
      then n
      else open_socket env (record n {
        should_reconnect = true;
        url = socket_url env.ws_url env.api_url env.secure env.host;
      })

pub on_open : Manager → Manager
on_open m = record m { retry_count = 0 }

pub on_close : Manager → Manager
unfolding schedule
on_close m = schedule (record m { ws = none })

-- `this.ws?.close()`
pub on_error : Manager → Manager
on_error m = elim m.ws [ none ↦ m | some s ↦ record m { log = close s ∷ m.log } ]

pub reset : Manager → Manager
reset m = record m { retry_count = 0 }

pub disconnect : Manager → Manager
unfolding drop_socket drop_timer
disconnect m = drop_socket (drop_timer (record m { should_reconnect = false; retry_count = 0 }))

-- The calls of the client's components, and what the browser delivers. `Set.add` of a handler that
-- is there changes nothing; a handler is called by `Socket.Handlers.deliver`.
pub data Event : Type 0 where
  call_connect call_reset call_disconnect : Event
  socket_opened socket_closed socket_errored : ℕ → Event
  timer_fired : ℕ → Event

abbrev pub has : ℕ → List ℕ → Bool
has s [] = false
has s (t ∷ ts) = if t == s then true else has s ts

abbrev pub has_timer : ℕ → List (ℕ × ℕ) → Bool
has_timer t [] = false
has_timer t (p ∷ ps) = if p.0 == t then true else has_timer t ps

-- A socket without its `onclose` closes unseen, and a timer fires only while it waits.
pub step : Env → Event → Manager → Manager
unfolding connect on_open on_close on_error reset disconnect
step env call_connect m = connect env m
step env call_reset m = reset m
step env call_disconnect m = disconnect m
step env (socket_opened s) m = on_open m
step env (socket_closed s) m =
    if has s m.attached then on_close (record m { attached = without s m.attached }) else m
step env (socket_errored s) m = on_error m
step env (timer_fired t) m =
    if has_timer t m.pending
    then connect env (record m { pending = without_timer t m.pending })
    else m

pub run : List (Env × Event) → Manager → Manager
run [] m = m
run ((env, e) ∷ rest) m = run rest (step env e m)
