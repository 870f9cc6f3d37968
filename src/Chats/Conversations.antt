-- ===== src/Chats/Conversations.antt =====
-- The list of conversations of the chats page, with the data of its `useAPI`. Each change of the data
-- or of the page number is rendered, and the effect runs, before the next.
pub mod Paging
pub mod Order
use noant.Base.{
  ℕ, zero, suc, ◌+◌, ◌==◌, leb, Text, codes, ◌===◌, Bool, true, false, not, ◌&&◌, ◌||◌, Option,
  none, some, List, [], ◌∷◌, ◌++◌, map, if◌then◌else◌,
}
use noant.Chats.Events.{is_active, or_text}

-- `time` is `new Date(updated_at).getTime()`.
pub record Conversation : Type 0 where
  pub id : Text
  pub customer_name : Text
  pub channel : Text
  pub last_message : Text
  pub unread : ℕ
  pub updated_at : Text
  pub time : ℕ

-- `loading_more` is the hook's; `loaded` and `has_more` are its data; `asked` is the page that was
-- asked for last.
pub record Sidebar : Type 0 where
  pub page : ℕ
  pub loading_more : Bool
  pub loaded : List Conversation
  pub has_more : Bool
  pub all_conversations : List Conversation

-- The effect on `[conversations, page]`.
pub list_effect : Sidebar → Sidebar
list_effect s = elim s.loaded [
  | [] ↦ s
  | c ∷ cs ↦ record s {
    all_conversations = if s.page == 1 then c ∷ cs else s.all_conversations ++ c ∷ cs;
  }
]

-- `handleLoadMore`, with the effect of `setPage`.
pub handle_load_more : Sidebar → Sidebar
unfolding list_effect
handle_load_more s =
    if s.loading_more || not s.has_more
    then s
    else list_effect (record s { page = s.page + 1; loading_more = true })

-- What the hook's `get` gives replaces its data, and what its `loadMore` gives is merged into them:
-- the lists are joined and `has_more` is replaced.
pub got : List Conversation → Bool → Sidebar → Sidebar
unfolding list_effect
got cs more s = list_effect (record s { loaded = cs; has_more = more; loading_more = false })

pub got_more : List Conversation → Bool → Sidebar → Sidebar
unfolding list_effect
got_more cs more s =
    list_effect (record s { loaded = s.loaded ++ cs; has_more = more; loading_more = false })

-- A live message in the list; `time` is that of `updated_at`.
pub updated : Option Text → (id content sender now : Text) → ℕ → Conversation → Conversation
updated active id content sender now time c =
    if c.id === id
    then record c {
      last_message = or_text content c.last_message;
      unread =
          if is_active active id
          then 0
          else if sender === codes "customer"
          then c.unread + 1
          else c.unread;
      updated_at = now;
      time = time;
    }
    else c

pub live : Option Text → (id content sender now : Text) → ℕ → Sidebar → Sidebar
unfolding updated
live active id content sender now time s = if id === [] then s else record s {
  all_conversations = map (updated active id content sender now time) s.all_conversations;
}

-- The part of `handleSend` on the list.
pub touch : Text → (text now : Text) → ℕ → Sidebar → Sidebar
touch active text now time s = record s {
  all_conversations =
      map
        (λ c.
          if c.id === active
          then record c { last_message = text; updated_at = now; time = time }
          else c)
        s.all_conversations;
}

-- `handleClearAllConfirm` behind its request.
pub cleared : Sidebar → Sidebar
cleared s = record s { all_conversations = [] }

-- `openAIChat`: the conversation that it finds.
pub ai_conversation : List Conversation → Option Text
ai_conversation [] = none
ai_conversation (c ∷ cs) =
    let rest = ai_conversation cs in
    if c.channel === codes "web" && c.customer_name === codes "Noant AI" then some c.id else rest

-- `sortedConversations`: the order of `Array.prototype.sort`, which is stable.
pub insert : Conversation → List Conversation → List Conversation
insert c [] = c ∷ []
insert c (d ∷ ds) = let rest = insert c ds in if leb d.time c.time then c ∷ d ∷ ds else d ∷ rest

pub sorted_conversations : List Conversation → List Conversation
unfolding insert
sorted_conversations [] = []
sorted_conversations (c ∷ cs) = insert c (sorted_conversations cs)

abbrev pub first_page : Sidebar
first_page = record {
  page = 1;
  loading_more = false;
  loaded = [];
  has_more = false;
  all_conversations = [];
}
