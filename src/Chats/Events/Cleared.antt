-- ===== src/Chats/Events/Cleared.antt =====
-- How the answer that streams is lost from the screen.
mod Tests
use noant.Base.{
  ℕ, Text, codes, ◌===◌, ===_refl, Bool, true, false, not, ◌&&◌, ◌||◌, Option, none, some, List, [],
  ◌∷◌, ◌++◌, map, keep_if, append-nil, append_assoc, if_intro, subst, sym, ap, ◌∙◌, if◌then◌else◌,
  ◌≡◌, refl, arith,
}
use noant.Chats.{
  Message, Chat, has_content, has_real, is_some, poll_effect, stop_effect, clear_effect,
  set_pending, set_messages, set_optimistic, delete_active,
}
use noant.Chats.Events.{
  Incoming, or_text, new_message, has_id, append_new, received, on_message_at, on_message,
  optimistic_msg, ai_placeholder, sent_at, send, streamed, stream_grows, with_content, chunk,
}
use noant.Chats.Events.Streaming.{
  feed, concat, sent_messages, Shows, feed-Shows, send-Shows, feed-none,
}

has_content-append :
    (t : Text) (ms : List Message) (m : Message)
    → m.content ≡ t
    → has_content t (ms ++ m ∷ []) ≡ true
has_content-append t [] m e = rw e (rw (===_refl t) refl)
has_content-append t (n ∷ ms) m e = ground (arith, has_content-append t ms m e)

set_messages-clears :
    (ms : List Message) (s : Chat)
    → is_some s.active_id ≡ true
    → has_real ms s.optimistic_messages ≡ true
    → (set_messages ms s).optimistic_messages ≡ []
unfolding set_messages clear_effect stop_effect poll_effect
set_messages-clears ms s a h = ground arith

set_optimistic-clears :
    (os : List Message) (s : Chat)
    → is_some s.active_id ≡ true
    → has_real s.active_messages os ≡ true
    → (set_optimistic os s).optimistic_messages ≡ []
unfolding set_optimistic clear_effect
set_optimistic-clears os s a h = ground arith

set_pending-optimistic :
    (l : List Text) (s : Chat) → (set_pending l s).optimistic_messages ≡ s.optimistic_messages
unfolding set_pending stop_effect poll_effect
set_pending-optimistic l s = ground arith

append_new-clears :
    (m : Message) (s : Chat)
    → is_some s.active_id ≡ true
    → has_id m.id s.active_messages ≡ false
    → has_real (s.active_messages ++ m ∷ []) s.optimistic_messages ≡ true
    → (append_new m s).optimistic_messages ≡ []
unfolding append_new
append_new-clears m s a i h =
    let ms = s.active_messages ++ m ∷ [] in
    ap (λ b. (if b then s else set_messages ms s).optimistic_messages) i
    ∙ set_messages-clears ms s a h

received-clears :
    (m : Message) (s : Chat)
    → is_some s.active_id ≡ true
    → has_id m.id s.active_messages ≡ false
    → has_real (s.active_messages ++ m ∷ []) s.optimistic_messages ≡ true
    → (received m s).optimistic_messages ≡ []
unfolding received
received-clears m s a i h =
    let t = append_new m s in
    let q = append_new-clears m s a i h in
    let l = delete_active t.active_id t.pending_ai in
    if_intro (λ (u : Chat). u.optimistic_messages ≡ []) (m.sender_type === codes "ai")
      (set_pending l t) t (λ _. set_pending-optimistic l t ∙ q) (λ _. q)

-- The live copy of a customer's message arrives.
on_message_at-clears :
    (k now fallback : Text) (m : Incoming) (s : Chat)
    → s.active_id ≡ some k
    → m.conversation_id ≡ k
    → m.type ≡ codes "new_message"
    → has_id (new_message now fallback k m).id s.active_messages ≡ false
    → has_real (s.active_messages ++ new_message now fallback k m ∷ []) s.optimistic_messages ≡ true
    → (on_message_at (some k) now fallback m s).optimistic_messages ≡ []
unfolding on_message_at
on_message_at-clears k now fallback m s a c t i h =
    rw c (rw (===_refl k) (rw t (received-clears (new_message now fallback k m) s (rw a refl) i h)))

has_real-append :
    (real os : List Message) (k i j now text : Text)
    → has_content text real ≡ true
    → has_real real (os ++ sent_messages k i j now text []) ≡ true
unfolding optimistic_msg
has_real-append real [] k i j now text h = rw h refl
has_real-append real (o ∷ os) k i j now text h =
    ground (arith, has_real-append real os k i j now text h)

has_real_of_first :
    (real : List Message) (k i j now text answer : Text)
    → has_content text real ≡ true
    → has_real real (sent_messages k i j now text answer) ≡ true
unfolding optimistic_msg
has_real_of_first real k i j now text answer h = rw h refl

content-new_message :
    (now fallback k : Text) (m : Incoming) → (new_message now fallback k m).content ≡ m.content
unfolding new_message
content-new_message now fallback k m = refl

sent_at-clears :
    (k i j now text : Text) (s : Chat)
    → has_content text s.active_messages ≡ true
    → s.active_id ≡ some k
    → (sent_at (some k) i j now text s).optimistic_messages ≡ []
unfolding sent_at ai_placeholder
sent_at-clears k i j now text s h a =
    set_optimistic-clears (s.optimistic_messages ++ sent_messages k i j now text [])
      (record s { sending = true; streams = (j, []) ∷ s.streams }) (ap is_some a)
      (has_real-append s.active_messages s.optimistic_messages k i j now text h)

-- A message is sent whose text the conversation already holds: it is not shown, and neither is any
-- piece of its answer.
pub feed-send-repeated :
    (k temp_id ai_temp_id now text : Text) (cs : List Text) (s : Chat)
    → has_content text s.active_messages ≡ true
    → s.active_id ≡ some k
    → (feed ai_temp_id cs (send temp_id ai_temp_id now text s)).optimistic_messages ≡ []
unfolding send
feed-send-repeated k temp_id ai_temp_id now text cs s h a = feed-none ai_temp_id cs _ (
    ap (λ x. (sent_at x temp_id ai_temp_id now text s).optimistic_messages) a
    ∙ sent_at-clears k temp_id ai_temp_id now text s h a)

-- The answer to a message of a new text is streaming when the live copy of that message arrives:
-- then neither the pieces that came before nor those that follow are shown.
pub feed-on_message :
    (k temp_id ai_temp_id now text : Text) (cs ds : List Text) (s : Chat) (later fallback : Text)
    (m : Incoming)
    → temp_id === ai_temp_id ≡ false
    → has_content text s.active_messages ≡ false
    → s.active_id ≡ some k
    → s.optimistic_messages ≡ []
    → m.conversation_id ≡ k
    → m.type ≡ codes "new_message"
    → m.content ≡ text
    → has_id (or_text m.id fallback) s.active_messages ≡ false
    → (feed ai_temp_id ds (
        on_message later fallback m
          (feed ai_temp_id cs (send temp_id ai_temp_id now text s)))).optimistic_messages
      ≡ []
unfolding on_message
feed-on_message k temp_id ai_temp_id now text cs ds s later fallback m p h a o c t e i =
    let v =
      feed-Shows k temp_id ai_temp_id now text p cs [] s.active_messages _ h
        (send-Shows k temp_id ai_temp_id now text p s h a o) in
    let u = feed ai_temp_id cs (send temp_id ai_temp_id now text s) in
    let n = new_message later fallback k m in
    feed-none ai_temp_id ds _ (
      ap (λ x. (on_message_at x later fallback m u).optimistic_messages) v.active
      ∙ on_message_at-clears k later fallback m u v.active c t
          (subst (λ ms. has_id n.id ms ≡ false) (sym v.messages) i)
          (subst (λ ms. has_real (ms ++ n ∷ []) u.optimistic_messages ≡ true) (sym v.messages)
            (subst (λ os. has_real (s.active_messages ++ n ∷ []) os ≡ true) (sym v.optimistic)
              (has_real_of_first (s.active_messages ++ n ∷ []) k temp_id ai_temp_id now text
                (concat cs)
                (has_content-append text s.active_messages n
                  (content-new_message later fallback k m ∙ e))))))
