-- ===== src/Socket/Handlers/Laws/Tests.antt =====
-- Three handlers, the second of which throws.
use noant.Base.{ℕ, Text, codes, Bool, true, false, ◌==◌, ◌++◌, Option, some, [], ◌∷◌, ◌≡◌, refl}
use noant.Json.{Value, obj, end, field, str, truthy}
use noant.Socket.{Manager, WsMessage, fresh, has}
use noant.Socket.Handlers.{subscribe, unsubscribe, on_message}
use noant.Socket.Handlers.Laws.{
  until_throw, calls, IsDistinct, log-on_message, subscribe-unsubscribe,
}

abbrev three : Manager
three = record fresh { handlers = 4 ∷ 7 ∷ 9 ∷ [] }

abbrev parse : Text → Option Value
parse s = some (obj (field (codes "type") (str s) end))

abbrev throws : ℕ → WsMessage → Bool
throws h msg = h == 7

log-on_message_example :
    (msg : WsMessage) × (truthy msg.type ≡ true)
    × ((on_message parse throws [] (codes "lead") three).log
        ≡ calls msg (until_throw (λ h. throws h msg) three.handlers) ++ [])
log-on_message_example = log-on_message parse throws [] (codes "lead") three _ refl

subscribe-unsubscribe_test :
    IsDistinct (subscribe 5 three).handlers
    × IsDistinct (unsubscribe 5 three).handlers
    × (has 5 (unsubscribe 5 three).handlers ≡ false)
    × (has 5 three.handlers ≡ false → (unsubscribe 5 (subscribe 5 three)).handlers ≡ three.handlers)
subscribe-unsubscribe_test = subscribe-unsubscribe 5 three (refl, (refl, (refl, tt)))
