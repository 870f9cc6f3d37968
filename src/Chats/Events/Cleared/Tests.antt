-- ===== src/Chats/Events/Cleared/Tests.antt =====
-- A question that was asked before, and one whose live copy arrives in the middle of its answer.
use noant.Base.{codes, false, some, [], ◌∷◌, ◌≡◌, refl}
use noant.Json.{undefined}
use noant.Chats.{Chat}
use noant.Chats.Events.{Incoming, optimistic_msg, on_message, send, initial}
use noant.Chats.Events.Streaming.{feed}
use noant.Chats.Events.Cleared.{feed-send-repeated, feed-on_message}

abbrev open_chat : Chat
open_chat = record initial { active_id = some (codes "c1") }

abbrev asked_before : Chat
asked_before = record open_chat {
  active_messages =
      record (optimistic_msg (codes "m1") (codes "c1") (codes "hi") []) { content = codes "hi" }
      ∷ [];
}

abbrev echo : Incoming
echo = record {
  type = codes "new_message";
  conversation_id = codes "c1";
  content = codes "hi";
  sender_type = codes "customer";
  timestamp = [];
  id = codes "m7";
  is_typing = false;
  confidence = undefined;
  source = undefined;
  metadata = undefined;
}

feed-send-repeated_test :
    (feed
      (codes "a1")
      (codes "hello" ∷ [])
      (send (codes "t1") (codes "a1") [] (codes "hi") asked_before)).optimistic_messages
    ≡ []
feed-send-repeated_test =
    feed-send-repeated (codes "c1") (codes "t1") (codes "a1") [] (codes "hi") (codes "hello" ∷ [])
      asked_before refl refl

feed-on_message_test :
    (feed (codes "a1") (codes "lo" ∷ []) (
      on_message (codes "now") (codes "msg-1") echo (
        feed
          (codes "a1")
          (codes "hel" ∷ [])
          (send (codes "t1") (codes "a1") [] (codes "hi") open_chat)))).optimistic_messages
    ≡ []
feed-on_message_test =
    feed-on_message (codes "c1") (codes "t1") (codes "a1") [] (codes "hi") (codes "hel" ∷ [])
      (codes "lo" ∷ []) open_chat (codes "now") (codes "msg-1") echo refl refl refl refl refl refl
      refl refl
