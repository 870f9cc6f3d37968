-- ===== src/Chats/Events/Consistent.antt =====
-- What the effects keep up, after any sequence of events.
mod Tests
use noant.Base.{
  ℕ, ◌+◌, ltb, Text, codes, ◌===◌, Bool, true, false, not, ◌&&◌, ◌||◌, Option, none, some, List, [],
  ◌∷◌, ◌++◌, keep_if, map, if_intro, if◌then◌else◌, ◌≡◌, refl, arith, Bool-cases, inl, inr,
}
use noant.Chats.{
  Message, Chat, has_text, add_text, delete_text, is_pending, delete_active, last_is_ai, has_real,
  is_some, poll_effect, stop_effect, clear_effect, set_pending, set_messages, set_optimistic,
}
use noant.Chats.Events.{
  Page, Incoming, same_id, load_effect, select, loaded, tick, polled, load_more_messages,
  older_loaded, new_message, has_id, append_new, typing, received, on_message_at, on_message,
  sent_at, send, streamed, stream_grows, with_content, chunk, stream_done, synced, stream_failed,
  send_failed, try_again, retry_polling_at, retry_polling, tries_again, retries_polling, Event,
  selects, first_page, polls_page, sync_page, ticks, wants_older, done, older_page, message, sends,
  chunks, fails_stream, fails_send, step, run, initial,
}
use noant.Chats.Effects.{
  IsConsistent, IsAnswered, set_messages-IsConsistent, set_optimistic-IsConsistent,
  set_pending-IsConsistent, unread-IsConsistent, clear_effect-IsConsistent, stop_effect-IsAnswered,
  poll_effect-polling,
}

load_effect-IsConsistent :
    (o : Option Text) (s : Chat) → IsConsistent s → IsConsistent (load_effect o s)
unfolding load_effect
load_effect-IsConsistent none s h = h
load_effect-IsConsistent (some k) s h = ground (arith, h.polls)

select-IsConsistent : (o : Option Text) (s : Chat) → IsConsistent s → IsConsistent (select o s)
unfolding select
select-IsConsistent o s h =
    let t = record s { active_id = o } in
    if_intro IsConsistent (same_id o s.active_id) s
      (load_effect o (clear_effect (stop_effect (poll_effect t)))) (λ _. h)
      (λ _. load_effect-IsConsistent o _ (
        clear_effect-IsConsistent _
          (stop_effect-IsAnswered (poll_effect t) (poll_effect-polling t))))

tick-IsConsistent : (s : Chat) → IsConsistent s → IsConsistent (tick s)
unfolding tick
tick-IsConsistent s h =
    let over = record (set_pending (delete_active s.active_id s.pending_ai) s) {
      ai_poll_failed = true;
    } in
    let next = record s { poll_count = s.poll_count + 1; polls = s.polls + 1 } in
    let c = set_pending-IsConsistent (delete_active s.active_id s.pending_ai) s h in
    if_intro IsConsistent (not s.polling) s (if ltb 30 (s.poll_count + 1) then over else next)
      (λ _. h)
      (λ _.
        if_intro IsConsistent (ltb 30 (s.poll_count + 1)) over next
          (λ _. unread-IsConsistent _ over c refl refl refl refl refl)
          (λ _. unread-IsConsistent s next h refl refl refl refl refl))

append_new-IsConsistent : (m : Message) (s : Chat) → IsConsistent s → IsConsistent (append_new m s)
unfolding append_new
append_new-IsConsistent m s h =
    if_intro IsConsistent (has_id m.id s.active_messages) s
      (set_messages (s.active_messages ++ m ∷ []) s) (λ _. h)
      (λ _. set_messages-IsConsistent _ s h.polls)

received-IsConsistent : (m : Message) (s : Chat) → IsConsistent s → IsConsistent (received m s)
unfolding received
received-IsConsistent m s h =
    let t = append_new m s in
    let c = append_new-IsConsistent m s h in
    if_intro IsConsistent (m.sender_type === codes "ai")
      (set_pending (delete_active t.active_id t.pending_ai) t) t
      (λ _. set_pending-IsConsistent _ t c) (λ _. c)

typing-IsConsistent :
    (k : Text) (b : Bool) (s : Chat) → IsConsistent s → IsConsistent (typing k b s)
unfolding typing
typing-IsConsistent k true s h = set_pending-IsConsistent _ s h
typing-IsConsistent k false s h = set_pending-IsConsistent _ s h

on_message_at-IsConsistent :
    (o : Option Text) (now fallback : Text) (m : Incoming) (s : Chat)
    → IsConsistent s
    → IsConsistent (on_message_at o now fallback m s)
unfolding on_message_at
on_message_at-IsConsistent none now fallback m s h = h
on_message_at-IsConsistent (some k) now fallback m s h =
    let on_new =
      if m.type === codes "new_message" then received (new_message now fallback k m) s else s in
    if_intro IsConsistent (not (m.conversation_id === k)) s
      (if m.type === codes "typing_indicator" then typing k m.is_typing s else on_new) (λ _. h)
      (λ _.
        if_intro IsConsistent (m.type === codes "typing_indicator") (typing k m.is_typing s) on_new
          (λ _. typing-IsConsistent k m.is_typing s h)
          (λ _.
            if_intro IsConsistent (m.type === codes "new_message")
              (received (new_message now fallback k m) s) s
              (λ _. received-IsConsistent (new_message now fallback k m) s h) (λ _. h)))

send_at-IsConsistent :
    (o : Option Text) (i j now text : Text) (s : Chat)
    → IsConsistent s
    → IsConsistent (sent_at o i j now text s)
unfolding sent_at
send_at-IsConsistent none i j now text s h = h
send_at-IsConsistent (some k) i j now text s h =
    set_optimistic-IsConsistent _ (record s { sending = true; streams = (j, []) ∷ s.streams })
      (unread-IsConsistent s _ h refl refl refl refl refl)

try_again-IsConsistent : (s : Chat) → IsConsistent s → IsConsistent (try_again s)
unfolding try_again
try_again-IsConsistent s h =
    if_intro IsConsistent _ (record s { msg_load_error = false; messages_loading = true }) s
      (λ _. unread-IsConsistent s _ h refl refl refl refl refl) (λ _. h)

retry_polling_at-IsConsistent :
    (o : Option Text) (s : Chat) → IsConsistent s → IsConsistent (retry_polling_at o s)
unfolding retry_polling_at
retry_polling_at-IsConsistent none s h = h
retry_polling_at-IsConsistent (some k) s h =
    let t = record s { ai_poll_failed = false } in
    if_intro IsConsistent s.ai_poll_failed (set_pending (add_text k s.pending_ai) t) s
      (λ _. set_pending-IsConsistent _ t (unread-IsConsistent s t h refl refl refl refl refl))
      (λ _. h)

step-IsConsistent : (e : Event) (s : Chat) → IsConsistent s → IsConsistent (step e s)
unfolding step loaded polled synced load_more_messages older_loaded on_message send chunk
    stream_done stream_failed send_failed retry_polling
step-IsConsistent (selects o) s h = select-IsConsistent o s h
step-IsConsistent (first_page none) s h = unread-IsConsistent s _ h refl refl refl refl refl
step-IsConsistent (first_page (some p)) s h = set_messages-IsConsistent _ _ h.polls
step-IsConsistent (polls_page none) s h = h
step-IsConsistent (polls_page (some p)) s h = set_messages-IsConsistent _ _ h.polls
step-IsConsistent (sync_page none) s h = h
step-IsConsistent (sync_page (some p)) s h = set_messages-IsConsistent _ _ h.polls
step-IsConsistent ticks s h = tick-IsConsistent s h
step-IsConsistent wants_older s h = ground arith
step-IsConsistent done s h = unread-IsConsistent s _ h refl refl refl refl refl
step-IsConsistent tries_again s h = try_again-IsConsistent s h
step-IsConsistent retries_polling s h = retry_polling_at-IsConsistent s.active_id s h
step-IsConsistent (older_page n none) s h = unread-IsConsistent s _ h refl refl refl refl refl
step-IsConsistent (older_page n (some p)) s h = set_messages-IsConsistent _ _ h.polls
step-IsConsistent (message now fallback m) s h =
    on_message_at-IsConsistent s.active_id now fallback m s h
step-IsConsistent (sends i j now text) s h = send_at-IsConsistent s.active_id i j now text s h
step-IsConsistent (chunks k c) s h =
    set_optimistic-IsConsistent _ (record s { streams = stream_grows k c s.streams })
      (unread-IsConsistent s _ h refl refl refl refl refl)
step-IsConsistent (fails_stream k) s h =
    set_optimistic-IsConsistent _ (record s { sending = false })
      (unread-IsConsistent s _ h refl refl refl refl refl)
step-IsConsistent (fails_send k) s h =
    set_optimistic-IsConsistent _ (record s { sending = false })
      (unread-IsConsistent s _ h refl refl refl refl refl)

run_from-IsConsistent : (es : List Event) (s : Chat) → IsConsistent s → IsConsistent (run es s)
unfolding run
run_from-IsConsistent [] s h = h
run_from-IsConsistent (e ∷ es) s h = run_from-IsConsistent es (step e s) (step-IsConsistent e s h)

-- After any sequence of events on the chats page: the polling runs just while the AI's answer to
-- the open conversation is awaited; no answer to it is awaited behind a message of the AI; and, while
-- a conversation is open, no customer's optimistic message is kept beside a message of the server
-- with the same text.
pub run-initial-IsConsistent : (es : List Event) → IsConsistent (run es initial)
run-initial-IsConsistent es =
    run_from-IsConsistent es initial (record { polls = refl; answered = refl; cleared = refl })
