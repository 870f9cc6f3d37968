-- ===== src/Socket/Invariant/Tests.antt =====
-- A session of the manager, and a replaced socket.
use noant.Base.{true, false, some, List, [], ◌∷◌, codes, ◌≡◌, refl, arith}
use noant.Socket.{
  Manager, Env, Event, call_connect, socket_opened, socket_closed, socket_errored, timer_fired,
  ReadyState, close, fresh, connect, disconnect, run, step,
}
use noant.Socket.Invariant.{IsValid, fresh-IsValid, run-IsValid}
use noant.Socket.Quiet.{IsQuiet, run-disconnect-IsQuiet, log-errored-connect}

abbrev env : Env
env = record {
  ready = λ s. ReadyState.connecting;
  accepts = λ url. true;
  ws_url = codes "ws://s";
  api_url = [];
  secure = false;
  host = [];
}

abbrev session : List (Env × Event)
session =
    (env, call_connect)
    ∷ (env, socket_closed 0)
    ∷ (env, timer_fired 0)
    ∷ (env, socket_opened 1)
    ∷ []

run-IsValid_example : IsValid (run session fresh)
run-IsValid_example = run-IsValid session fresh fresh-IsValid

abbrev late : List (Env × Event)
late = (env, socket_closed 1) ∷ (env, timer_fired 0) ∷ []

run-disconnect-IsQuiet_example :
    IsQuiet (run late (disconnect (run session fresh)))
    × ((run late (disconnect (run session fresh))).next_socket ≡ 2)
    × ((run late (disconnect (run session fresh))).next_timer ≡ 1)
unfolding run step
run-disconnect-IsQuiet_example =
    run-disconnect-IsQuiet late (run session fresh) (λ e. cc, (λ e. cc, tt)) run-IsValid_example

abbrev waiting : Manager
waiting = record fresh { ws = some 0; attached = 0 ∷ []; next_socket = 1; should_reconnect = true }

log-errored-connect_test :
    (step env (socket_errored 0) (connect env waiting)).log ≡ close 1 ∷ (connect env waiting).log
log-errored-connect_test = log-errored-connect env waiting 0 refl refl (omega arith) (λ url. refl)
