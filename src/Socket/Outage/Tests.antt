-- ===== src/Socket/Outage/Tests.antt =====
-- A server that takes no connection, and one that opens the third socket.
use noant.Base.{ℕ, min, true, false, [], ◌∷◌, codes, ◌≡◌, refl, arith}
use noant.Socket.{
  Env, call_connect, socket_opened, socket_errored, ReadyState, fresh, connect, run, step,
}
use noant.Socket.Outage.{
  lose, outage, IsExhausted, next_socket-outage, pending-lose-outage, outage-IsExhausted,
  run-IsExhausted,
}

abbrev env : Env
env = record {
  ready = λ s. ReadyState.connecting;
  accepts = λ url. true;
  ws_url = codes "ws://s";
  api_url = [];
  secure = false;
  host = [];
}

next_socket-outage_example : (outage env 40 (connect env fresh)).next_socket ≡ 15
next_socket-outage_example = next_socket-outage env 40 (λ url. refl)

pending-lose-outage_test :
    (t : ℕ) × ((lose env (outage env 3 (connect env fresh))).pending ≡ (t, min 8000 30000) ∷ [])
pending-lose-outage_test = pending-lose-outage env 3 (λ url. refl) (omega arith)

outage-IsExhausted_test : IsExhausted (outage env 20 (connect env fresh))
outage-IsExhausted_test = outage-IsExhausted env 20 (λ url. refl) (omega arith)

run-IsExhausted_test :
    IsExhausted
      (run ((env, call_connect) ∷ (env, socket_errored 3) ∷ []) (outage env 20 (connect env fresh)))
run-IsExhausted_test =
    run-IsExhausted ((env, call_connect) ∷ (env, socket_errored 3) ∷ []) _ (omega arith)
      outage-IsExhausted_test

recovered : (step env (socket_opened 2) (outage env 2 (connect env fresh))).retry_count ≡ 0
unfolding step
recovered = refl
