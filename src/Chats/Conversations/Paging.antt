-- ===== src/Chats/Conversations/Paging.antt =====
-- What the list of conversations holds behind a further page.
mod Tests
use noant.Base.{
  ℕ, ◌+◌, Text, Bool, true, false, List, [], ◌∷◌, ◌++◌, if◌then◌else◌, ◌≡◌, refl, append_assoc,
  arith,
}
use noant.Chats.Conversations.{
  Conversation, Sidebar, list_effect, handle_load_more, got, got_more, first_page,
}

-- A first page that is not empty, and a further one: the first page stands in the list three times,
-- once from its own arrival, once more since the page number changed, and once more in the data
-- that `loadMore` merged.
pub all_conversations-got_more :
    (c : Conversation) (cs further : List Conversation) (more : Bool)
    → (got_more further more (handle_load_more (got (c ∷ cs) true first_page))).all_conversations
      ≡ (c ∷ cs) ++ (c ∷ cs) ++ ((c ∷ cs) ++ further)
unfolding got got_more handle_load_more list_effect
all_conversations-got_more c cs further more = refl
