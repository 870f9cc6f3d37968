-- ===== src/Chats/Events.antt =====
-- The handlers of the chats page: the choice of a conversation, pages of messages, the polling, live
-- messages, and a message that is sent, with the stream of its answer.
pub mod Consistent
pub mod Polling
pub mod Streaming
pub mod Cleared
pub mod Loading
use noant.Base.{
  ℕ, ◌+◌, ltb, Text, codes, ◌===◌, Bool, true, false, not, ◌&&◌, ◌||◌, Option, none, some, List, [],
  ◌∷◌, ◌++◌, keep_if, map, if◌then◌else◌,
}
use noant.Json.{Value, undefined}
use noant.Chats.{
  Message, Chat, is_some, add_text, delete_text, delete_active, poll_effect, stop_effect,
  clear_effect, all_messages, set_pending, set_messages, set_optimistic,
}

-- A page of messages as the server gives it, `[]` and `false` for fields that are absent.
pub record Page : Type 0 where
  pub messages : List Message
  pub has_more : Bool

-- A live message with its `data` read: a text that is absent is empty, and `is_typing` is false.
pub record Incoming : Type 0 where
  pub type : Text
  pub conversation_id : Text
  pub content : Text
  pub sender_type : Text
  pub timestamp : Text
  pub id : Text
  pub is_typing : Bool
  pub confidence : Value
  pub source : Value
  pub metadata : Value

abbrev pub no_messages : List Message → Bool
no_messages [] = true
no_messages (m ∷ ms) = false

abbrev pub or_text : Text → Text → Text
or_text a b = if a === [] then b else a

abbrev pub is_active : Option Text → Text → Bool
is_active none k = false
is_active (some j) k = k === j

-- The effect on `[activeId]`, up to its `await`.
pub load_effect : Option Text → Chat → Chat
load_effect none s = s
load_effect (some k) s = record s {
  active_messages = [];
  optimistic_messages = [];
  msg_page = 1;
  msg_has_more = false;
  messages_loading = true;
  msg_load_error = false;
}

abbrev pub same_id : Option Text → Option Text → Bool
same_id none none = true
same_id (some j) (some k) = j === k
same_id _ _ = false

-- `activeId` changes.
pub select : Option Text → Chat → Chat
unfolding load_effect
select o s =
    if same_id o s.active_id
    then s
    else load_effect o (clear_effect (stop_effect (poll_effect (record s { active_id = o }))))

-- What follows the `await` of the first page, `none` being a failure. The conversation that was
-- asked for does not stand in it.
pub loaded : Option Page → Chat → Chat
loaded none s = record s { msg_load_error = true; messages_loading = false }
loaded (some p) s =
    set_messages p.messages (record s { msg_has_more = p.has_more; messages_loading = false })

-- A tick of the interval.
pub tick : Chat → Chat
tick s =
    if not s.polling
    then s
    else if ltb 30 (s.poll_count + 1)
    then record (set_pending (delete_active s.active_id s.pending_ai) s) { ai_poll_failed = true }
    else record s { poll_count = s.poll_count + 1; polls = s.polls + 1 }

pub polled : Option Page → Chat → Chat
polled none s = s
polled (some p) s = set_messages p.messages (record s { msg_has_more = p.has_more; msg_page = 1 })

-- `handleLoadMoreMessages`, up to its `await`, with the page that it asks for, and what follows.
pub load_more_messages : Chat → Option ℕ × Chat
load_more_messages s =
    if not (is_some s.active_id) || s.msg_loading_more || not s.msg_has_more
    then (none, s)
    else (some (s.msg_page + 1), record s { msg_loading_more = true })

pub older_loaded : ℕ → Option Page → Chat → Chat
older_loaded next_page none s = record s { msg_loading_more = false }
older_loaded next_page (some p) s =
    set_messages (p.messages ++ s.active_messages)
      (record s { msg_has_more = p.has_more; msg_page = next_page; msg_loading_more = false })

-- `newMsg`; `now` is the time of day and `fallback` the id that is made of it.
pub new_message : Text → Text → Text → Incoming → Message
new_message now fallback active m = record {
  id = or_text m.id fallback;
  conversation_id = active;
  content = m.content;
  sender_type = or_text m.sender_type (codes "customer");
  role = or_text m.sender_type (codes "customer");
  created_at = or_text m.timestamp now;
  confidence = m.confidence;
  source = m.source;
  metadata = m.metadata;
}

abbrev pub has_id : Text → List Message → Bool
has_id k [] = false
has_id k (m ∷ ms) = m.id === k || has_id k ms

-- `setActiveMessages(prev => …)`
pub append_new : Message → Chat → Chat
append_new m s =
    if has_id m.id s.active_messages then s else set_messages (s.active_messages ++ m ∷ []) s

-- The two branches on a message of the open conversation.
pub typing : Text → Bool → Chat → Chat
typing k true s = set_pending (add_text k s.pending_ai) s
typing k false s = set_pending (delete_text k s.pending_ai) s

pub received : Message → Chat → Chat
unfolding append_new
received m s =
    let t = append_new m s in
    if m.sender_type === codes "ai"
    then set_pending (delete_active t.active_id t.pending_ai) t
    else t

-- The subscriber, as far as messages go.
pub on_message_at : Option Text → Text → Text → Incoming → Chat → Chat
unfolding typing received new_message
on_message_at none now fallback m s = s
on_message_at (some k) now fallback m s =
    if not (m.conversation_id === k)
    then s
    else if m.type === codes "typing_indicator"
    then typing k m.is_typing s
    else if m.type === codes "new_message"
    then received (new_message now fallback k m) s
    else s

pub on_message : Text → Text → Incoming → Chat → Chat
unfolding on_message_at
on_message now fallback m s = on_message_at s.active_id now fallback m s

-- A message that is sent and the placeholder of its answer.
pub optimistic_msg : Text → Text → Text → Text → Message
optimistic_msg id active text now = record {
  id = id;
  conversation_id = active;
  content = text;
  sender_type = codes "customer";
  role = [];
  created_at = now;
  confidence = undefined;
  source = undefined;
  metadata = undefined;
}

pub ai_placeholder : Text → Text → Text → Message
ai_placeholder id active now = record (optimistic_msg id active [] now) {
  sender_type = codes "ai";
  role = codes "ai";
}

-- `handleSend`, up to the first event of its stream.
pub sent_at : Option Text → (temp_id ai_temp_id now text : Text) → Chat → Chat
unfolding optimistic_msg ai_placeholder
sent_at none temp_id ai_temp_id now text s = s
sent_at (some k) temp_id ai_temp_id now text s =
    set_optimistic
      (s.optimistic_messages
        ++ optimistic_msg temp_id k text now ∷ ai_placeholder ai_temp_id k now ∷ [])
      (record s { sending = true; streams = (ai_temp_id, []) ∷ s.streams })

pub send : (temp_id ai_temp_id now text : Text) → Chat → Chat
unfolding sent_at
send temp_id ai_temp_id now text s = sent_at s.active_id temp_id ai_temp_id now text s

-- `streamedContent` of a stream.
abbrev pub streamed : Text → List (Text × Text) → Text
streamed k [] = []
streamed k ((j, t) ∷ l) = if j === k then t else streamed k l

abbrev pub stream_grows : Text → Text → List (Text × Text) → List (Text × Text)
stream_grows k c [] = []
stream_grows k c ((j, t) ∷ l) = (if j === k then (j, t ++ c) else (j, t)) ∷ stream_grows k c l

abbrev pub with_content : Text → Text → Message → Message
with_content k t m = if m.id === k then record m { content = t } else m

-- The callbacks of the stream: `onChunk`, `onDone` with the sync behind it, and `onError`.
pub chunk : Text → Text → Chat → Chat
chunk k c s =
    let streams = stream_grows k c s.streams in
    set_optimistic (map (with_content k (streamed k streams)) s.optimistic_messages)
      (record s { streams = streams })

pub stream_done : Chat → Chat
stream_done s = record s { sending = false }

pub synced : Option Page → Chat → Chat
synced none s = s
synced (some p) s =
    set_messages p.messages
      (record s { msg_has_more = p.has_more; msg_page = 1; optimistic_messages = [] })

pub stream_failed : Text → Chat → Chat
stream_failed k s =
    set_optimistic (keep_if (λ m. not (m.id === k)) s.optimistic_messages)
      (record s { sending = false })

-- The `catch` of `handleSend`.
pub send_failed : Text → Chat → Chat
send_failed k s =
    set_optimistic
      (map (λ m. if m.id === k then record m { content = m.content ++ codes " (failed)" } else m)
        s.optimistic_messages)
      (record s { sending = false })

-- `Try again` behind a first page that could not be loaded, which is shown where no message is; its
-- answer does what that of the first page does.
pub try_again : Chat → Chat
unfolding all_messages
try_again s =
    if s.msg_load_error && no_messages (all_messages s) && not s.messages_loading
    then record s { msg_load_error = false; messages_loading = true }
    else s

-- `Retry` behind a polling that was given up.
pub retry_polling_at : Option Text → Chat → Chat
retry_polling_at none s = s
retry_polling_at (some k) s =
    if s.ai_poll_failed
    then set_pending (add_text k s.pending_ai) (record s { ai_poll_failed = false })
    else s

pub retry_polling : Chat → Chat
unfolding retry_polling_at
retry_polling s = retry_polling_at s.active_id s

-- All of them.
pub data Event : Type 0 where
  selects : Option Text → Event
  first_page polls_page sync_page : Option Page → Event
  ticks wants_older done tries_again retries_polling : Event
  older_page : ℕ → Option Page → Event
  message : Text → Text → Incoming → Event
  sends : (temp_id ai_temp_id now text : Text) → Event
  chunks : Text → Text → Event
  fails_stream fails_send : Text → Event

pub step : Event → Chat → Chat
unfolding select loaded tick polled load_more_messages older_loaded on_message send chunk
    stream_done synced stream_failed send_failed try_again retry_polling
step (selects o) s = select o s
step (first_page r) s = loaded r s
step (polls_page r) s = polled r s
step (sync_page r) s = synced r s
step ticks s = tick s
step wants_older s = (load_more_messages s).1
step done s = stream_done s
step tries_again s = try_again s
step retries_polling s = retry_polling s
step (older_page n r) s = older_loaded n r s
step (message now fallback m) s = on_message now fallback m s
step (sends temp_id ai_temp_id now text) s = send temp_id ai_temp_id now text s
step (chunks k c) s = chunk k c s
step (fails_stream k) s = stream_failed k s
step (fails_send k) s = send_failed k s

pub run : List Event → Chat → Chat
unfolding step
run [] s = s
run (e ∷ es) s = run es (step e s)

abbrev pub initial : Chat
initial = record {
  active_id = none;
  active_messages = [];
  optimistic_messages = [];
  pending_ai = [];
  polling = false;
  poll_count = 0;
  polls = 0;
  ai_poll_failed = false;
  msg_page = 1;
  msg_has_more = false;
  msg_loading_more = false;
  messages_loading = false;
  msg_load_error = false;
  sending = false;
  streams = [];
}
