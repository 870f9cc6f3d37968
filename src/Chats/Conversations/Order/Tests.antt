-- ===== src/Chats/Conversations/Order/Tests.antt =====
-- Three conversations, two of them updated at the same time.
use noant.Base.{ℕ, Text, codes, List, [], ◌∷◌, ◌≡◌}
use noant.Chats.Conversations.{Conversation, sorted_conversations}
use noant.Chats.Conversations.Order.{IsSorted, updated_at_time, sorted_conversations_lem}

abbrev updated_at : (id : Text) → ℕ → Conversation
updated_at id time = record {
  id = id;
  customer_name = codes "Ada";
  channel = codes "web";
  last_message = [];
  unread = 0;
  updated_at = [];
  time = time;
}

abbrev inbox : List Conversation
inbox = updated_at (codes "a") 1 ∷ updated_at (codes "b") 5 ∷ updated_at (codes "c") 1 ∷ []

sorted_conversations_lem_test :
    IsSorted (sorted_conversations inbox)
    × ((t : ℕ) → updated_at_time t (sorted_conversations inbox) ≡ updated_at_time t inbox)
sorted_conversations_lem_test = sorted_conversations_lem inbox
