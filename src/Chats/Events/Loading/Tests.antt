-- ===== src/Chats/Events/Loading/Tests.antt =====
-- Two conversations that are opened one behind the other, and a live message that comes twice.
use noant.Base.{codes, false, some, [], ◌∷◌, ◌≡◌, refl}
use noant.Chats.{Message, Chat}
use noant.Chats.Events.{Page, optimistic_msg, select, loaded, initial}
use noant.Chats.Events.Loading.{loaded-loaded-select, receive, IsReceived, receive-IsReceived}

abbrev text_message : Message
text_message = optimistic_msg (codes "m1") (codes "c1") (codes "hi") []

abbrev first : Page
first = record { messages = text_message ∷ []; has_more = false }

abbrev second : Page
second = record { messages = []; has_more = false }

abbrev on_first : Chat
on_first = record initial { active_id = some (codes "c1") }

loaded-loaded-select_test :
    let t = loaded (some first) (loaded (some second) (select (some (codes "c2")) on_first)) in
    (t.active_id ≡ some (codes "c2")) × (t.active_messages ≡ first.messages)
loaded-loaded-select_test = loaded-loaded-select (codes "c2") first second on_first refl

receive-IsReceived_test :
    IsReceived []
      (text_message ∷ text_message ∷ [])
      (receive (text_message ∷ text_message ∷ []) on_first).active_messages
receive-IsReceived_test = receive-IsReceived (text_message ∷ text_message ∷ []) on_first tt
