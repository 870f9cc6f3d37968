-- ===== src/Socket/Handlers.antt =====
-- The handlers of `WebSocketManager`: `onMessage`, the function that it returns, and the delivery
-- in `ws.onmessage`.
pub mod Laws
use noant.Base.{Text, ℕ, Bool, Option, none, some, List, [], ◌∷◌, ◌++◌, if◌then◌else◌}
use noant.Json.{Value}
use noant.Socket.{Manager, WsMessage, Effect, call, has, without}
use noant.Socket.Message.{normalize}

-- `this.handlers.add(handler)`
pub subscribe : ℕ → Manager → Manager
subscribe h m = if has h m.handlers then m else record m { handlers = m.handlers ++ h ∷ [] }

-- `this.handlers.delete(handler)`
pub unsubscribe : ℕ → Manager → Manager
unsubscribe h m = record m { handlers = without h m.handlers }

module _ (parse : Text → Option Value) (throws : ℕ → WsMessage → Bool) where
  -- `handlers.forEach`, which ends at a handler that throws: the `catch` is around the loop.
  pub deliver : WsMessage → List ℕ → List Effect → List Effect
  deliver msg [] log = log
  deliver msg (h ∷ hs) log =
      let rest = deliver msg hs (call h msg ∷ log) in
      if throws h msg then call h msg ∷ log else rest

  received : Option WsMessage → Manager → Manager
  received none m = m
  received (some msg) m = record m { log = deliver msg m.handlers m.log }

  parsed : Text → Option Value → Option WsMessage
  parsed now none = none
  parsed now (some raw) = normalize now raw

  pub on_message : Text → Text → Manager → Manager
  unfolding received parsed
  on_message now event m = received (parsed now (parse event)) m
