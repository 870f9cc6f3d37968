-- ===== src/Chats/Conversations/Paging/Tests.antt =====
-- One conversation on each page.
use noant.Base.{Text, codes, true, false, [], ◌∷◌, ◌≡◌}
use noant.Chats.Conversations.{Conversation, handle_load_more, got, got_more, first_page}
use noant.Chats.Conversations.Paging.{all_conversations-got_more}

abbrev conversation : (id : Text) → Conversation
conversation id = record {
  id = id;
  customer_name = codes "Ada";
  channel = codes "web";
  last_message = [];
  unread = 0;
  updated_at = [];
  time = 0;
}

all_conversations-got_more_test :
    (got_more
      (conversation (codes "c2") ∷ [])
      false
      (handle_load_more (got (conversation (codes "c1") ∷ []) true first_page))).all_conversations
    ≡ conversation (codes "c1")
      ∷ conversation (codes "c1")
      ∷ conversation (codes "c1")
      ∷ conversation (codes "c2")
      ∷ []
all_conversations-got_more_test =
    all_conversations-got_more (conversation (codes "c1")) [] (conversation (codes "c2") ∷ []) false
