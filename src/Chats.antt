-- ===== src/Chats.antt =====
-- The messages of frontend/src/app/(dashboard)/chats/page.tsx: those of the server, the optimistic
-- ones, the wait for the AI, and the effects between them. Each event is rendered, and the effects
-- run, before the next.
pub mod Events
pub mod Conversations
pub mod Effects
use noant.Base.{
  ℕ, ◌+◌, ltb, Text, codes, ◌===◌, Bool, true, false, not, ◌&&◌, ◌||◌, Option, none, some, List, [],
  ◌∷◌, ◌++◌, keep_if, if◌then◌else◌,
}
use noant.Json.{Value}

pub record Message : Type 0 where
  pub id : Text
  pub conversation_id : Text
  pub content : Text
  pub sender_type : Text
  pub role : Text
  pub created_at : Text
  pub confidence : Value
  pub source : Value
  pub metadata : Value

-- `poll_count` is `aiPollCountRef`, `polling` says whether the interval of `aiPollRef` is set, and
-- `polls` counts the requests that it sent. `streams` has the text of each stream, by the id of its
-- placeholder.
pub record Chat : Type 0 where
  pub active_id : Option Text
  pub active_messages : List Message
  pub optimistic_messages : List Message
  pub pending_ai : List Text
  pub polling : Bool
  pub poll_count : ℕ
  pub polls : ℕ
  pub ai_poll_failed : Bool
  pub msg_page : ℕ
  pub msg_has_more : Bool
  pub msg_loading_more : Bool
  pub messages_loading : Bool
  pub msg_load_error : Bool
  pub sending : Bool
  pub streams : List (Text × Text)

-- `Set.has`, `Set.add` and `Set.delete`
abbrev pub has_text : Text → List Text → Bool
has_text k [] = false
has_text k (j ∷ l) = j === k || has_text k l

pub add_text : Text → List Text → List Text
add_text k l = if has_text k l then l else k ∷ l

pub delete_text : Text → List Text → List Text
delete_text k l = keep_if (λ j. not (j === k)) l

-- `activeId` and whether `pendingAI` has it
abbrev pub is_pending : Option Text → List Text → Bool
is_pending none l = false
is_pending (some k) l = has_text k l

-- The effect on `[activeId, pendingAI]`: the interval is set anew, or cleared.
pub poll_effect : Chat → Chat
poll_effect s =
    if is_pending s.active_id s.pending_ai
    then record s { polling = true; poll_count = 0; ai_poll_failed = false }
    else record s { polling = false; poll_count = 0 }

abbrev pub last_is_ai : List Message → Bool
last_is_ai [] = false
last_is_ai (m ∷ []) = m.sender_type === codes "ai"
last_is_ai (m ∷ n ∷ ms) = last_is_ai (n ∷ ms)

-- `next.delete(activeId)`
abbrev pub delete_active : Option Text → List Text → List Text
delete_active none l = l
delete_active (some k) l = delete_text k l

-- The effect that stops the polling, and the one that it leads to.
pub stop_effect : Chat → Chat
unfolding poll_effect delete_text
stop_effect s =
    if is_pending s.active_id s.pending_ai && last_is_ai s.active_messages
    then poll_effect (record s { pending_ai = delete_active s.active_id s.pending_ai })
    else s

abbrev pub has_content : Text → List Message → Bool
has_content t [] = false
has_content t (m ∷ ms) = m.content === t || has_content t ms

-- `optimisticMessages.some(…)`
abbrev pub has_real : List Message → List Message → Bool
has_real real [] = false
has_real real (o ∷ os) =
    (o.sender_type === codes "customer" && has_content o.content real) || has_real real os

abbrev pub is_some : Option Text → Bool
is_some none = false
is_some (some k) = true

-- The effect that clears the optimistic messages.
pub clear_effect : Chat → Chat
clear_effect s =
    if is_some s.active_id && has_real s.active_messages s.optimistic_messages
    then record s { optimistic_messages = [] }
    else s

-- The setters, with the effects on what they set.
pub set_pending : List Text → Chat → Chat
unfolding stop_effect poll_effect
set_pending l s = stop_effect (poll_effect (record s { pending_ai = l }))

pub set_messages : List Message → Chat → Chat
unfolding clear_effect stop_effect
set_messages ms s = clear_effect (stop_effect (record s { active_messages = ms }))

pub set_optimistic : List Message → Chat → Chat
unfolding clear_effect
set_optimistic os s = clear_effect (record s { optimistic_messages = os })

-- The messages that are shown.
pub all_messages : Chat → List Message
all_messages s =
    s.active_messages
    ++ keep_if (λ o. not (has_content o.content s.active_messages)) s.optimistic_messages
