-- ===== src/Socket/Message.antt =====
-- `ws.onmessage`: what becomes of the text of an event.
use noant.Base.{Text, codes, Option, none, some}
use noant.Json.{Value, str, or, member, member?}
use noant.Socket.{WsMessage}

infixl 5 ◌>>=◌
abbrev ◌>>=◌ {ℓ κ} : {A : Type ℓ} {B : Type κ} → Option A → (A → Option B) → Option B
none >>= f = none
some a >>= f = f a

-- The object literal; `none` is the TypeError of a message that is `null`. `now` is
-- `new Date().toISOString()`.
unfoldable pub normalize : Text → Value → Option WsMessage
normalize now raw = do
  type ← member raw (codes "type")
  id ← member raw (codes "conversation_id")
  upper_id ← member raw (codes "ConversationID")
  content ← member raw (codes "content")
  payload ← member raw (codes "data")
  upper_payload ← member raw (codes "Data")
  sender ← member raw (codes "sender_type")
  timestamp ← member raw (codes "timestamp")
  created_at ← member raw (codes "created_at")
  some (record {
    type = or type (str (codes "new_message"));
    conversation_id = or id upper_id;
    content =
        or (or content (member? payload (codes "content")))
          (member? upper_payload (codes "content"));
    sender_type =
        or
          (or
            (or (or sender (member? payload (codes "sender_type")))
              (member? upper_payload (codes "sender_type")))
            (member? payload (codes "role")))
          (member? upper_payload (codes "role"));
    timestamp = or (or timestamp created_at) (str now);
    payload = or payload upper_payload;
  })
