-- ===== src/Chats/Events/Streaming.antt =====
-- A message that is sent, and its answer while it streams.
mod Tests
use noant.Base.{
  ℕ, Text, codes, ◌===◌, ===_refl, true, false, ◌&&◌, ◌||◌, Option, none, some, List, [], ◌∷◌, ◌++◌,
  map, keep_if, append-nil, append_assoc, if_intro, subst, sym, ap, ◌∙◌, if◌then◌else◌, ◌≡◌, refl,
  arith,
}
use noant.Chats.{
  Message, Chat, has_content, has_real, is_some, poll_effect, stop_effect, clear_effect,
  set_pending, set_messages, set_optimistic, delete_active,
}
use noant.Chats.Events.{
  Incoming, or_text, new_message, has_id, append_new, received, on_message_at, on_message,
  optimistic_msg, ai_placeholder, sent_at, send, streamed, stream_grows, with_content, chunk,
}

-- The pieces of a stream, in order.
pub feed : Text → List Text → Chat → Chat
feed k [] s = s
feed k (c ∷ cs) s = feed k cs (chunk k c s)

abbrev pub concat : List Text → Text
concat [] = []
concat (c ∷ cs) = c ++ concat cs

clear_effect-none :
    (s : Chat)
    → (is_some s.active_id && has_real s.active_messages s.optimistic_messages) ≡ false
    → clear_effect s ≡ s
unfolding clear_effect
clear_effect-none s h = ap (λ b. if b then record s { optimistic_messages = [] } else s) h

streamed-stream_grows :
    (k c acc : Text) (l : List (Text × Text))
    → streamed k (stream_grows k c ((k, acc) ∷ l)) ≡ acc ++ c
streamed-stream_grows k c acc l = rw (===_refl k) (rw (===_refl k) refl)

-- What `send` adds, with the answer so far.
abbrev pub sent_messages : (k temp_id ai_temp_id now text answer : Text) → List Message
sent_messages k temp_id ai_temp_id now text answer =
    optimistic_msg temp_id k text now
    ∷ record (ai_placeholder ai_temp_id k now) { content = answer }
    ∷ []

module _ (k temp_id ai_temp_id now text : Text) (apart : temp_id === ai_temp_id ≡ false) where
  pub record Shows (acc : Text) (real : List Message) (s : Chat) : Type 0 where
    pub active : s.active_id ≡ some k
    pub messages : s.active_messages ≡ real
    pub optimistic : s.optimistic_messages ≡ sent_messages k temp_id ai_temp_id now text acc
    pub others : List (Text × Text)
    pub streams : s.streams ≡ (ai_temp_id, acc) ∷ others

  has_real-sent :
      (acc : Text) (real : List Message)
      → has_content text real ≡ false
      → has_real real (sent_messages k temp_id ai_temp_id now text acc) ≡ false
  unfolding optimistic_msg ai_placeholder
  has_real-sent acc real h = rw h refl

  map-with_content :
      (acc new : Text)
      → map (with_content ai_temp_id new) (sent_messages k temp_id ai_temp_id now text acc)
        ≡ sent_messages k temp_id ai_temp_id now text new
  unfolding optimistic_msg ai_placeholder
  map-with_content acc new = rw apart (rw (===_refl ai_temp_id) refl)

  set_optimistic-sent :
      (acc : Text) (real : List Message) (s : Chat)
      → has_content text real ≡ false
      → s.active_id ≡ some k
      → s.active_messages ≡ real
      → set_optimistic (sent_messages k temp_id ai_temp_id now text acc) s
        ≡ record s { optimistic_messages = sent_messages k temp_id ai_temp_id now text acc }
  unfolding set_optimistic
  set_optimistic-sent acc real s h a m =
      clear_effect-none
        (record s { optimistic_messages = sent_messages k temp_id ai_temp_id now text acc })
        (simp a (simp m (has_real-sent acc real h)))

  chunk-Shows :
      (c acc : Text) (real : List Message) (s : Chat)
      → has_content text real ≡ false
      → Shows acc real s
      → Shows (acc ++ c) real (chunk ai_temp_id c s)
  unfolding chunk
  chunk-Shows c acc real s h v =
      let grown = stream_grows ai_temp_id c s.streams in
      let e : streamed ai_temp_id grown ≡ acc ++ c =
        rw v.streams (streamed-stream_grows ai_temp_id c acc v.others) in
      let os : map (with_content ai_temp_id (streamed ai_temp_id grown)) s.optimistic_messages
          ≡ sent_messages k temp_id ai_temp_id now text (acc ++ c) =
        rw e (rw v.optimistic (map-with_content acc (acc ++ c))) in
      let t = record s { streams = grown } in
      subst (Shows (acc ++ c) real)
        (sym (
          ap (λ l. set_optimistic l t) os
          ∙ set_optimistic-sent (acc ++ c) real t h v.active v.messages))
        (record {
          active = v.active;
          messages = v.messages;
          optimistic = refl;
          others = stream_grows ai_temp_id c v.others;
          streams = rw v.streams (rw (===_refl ai_temp_id) refl);
        })

  pub feed-Shows :
      (cs : List Text) (acc : Text) (real : List Message) (s : Chat)
      → has_content text real ≡ false
      → Shows acc real s
      → Shows (acc ++ concat cs) real (feed ai_temp_id cs s)
  unfolding feed
  feed-Shows [] acc real s h v = rw (append-nil acc) v
  feed-Shows (c ∷ cs) acc real s h v =
      rw (← append_assoc acc c (concat cs))
        (feed-Shows cs (acc ++ c) real (chunk ai_temp_id c s) h (chunk-Shows c acc real s h v))

  opened :
      (s : Chat)
      → has_content text s.active_messages ≡ false
      → s.active_id ≡ some k
      → s.optimistic_messages ≡ []
      → sent_at (some k) temp_id ai_temp_id now text s ≡ record s {
        optimistic_messages = sent_messages k temp_id ai_temp_id now text [];
        sending = true;
        streams = (ai_temp_id, []) ∷ s.streams;
      }
  unfolding sent_at ai_placeholder
  opened s h a o =
      let t = record s { sending = true; streams = (ai_temp_id, []) ∷ s.streams } in
      ap (λ l. set_optimistic (l ++ sent_messages k temp_id ai_temp_id now text []) t) o
      ∙ set_optimistic-sent [] s.active_messages t h a refl

  pub send-Shows :
      (s : Chat)
      → has_content text s.active_messages ≡ false
      → s.active_id ≡ some k
      → s.optimistic_messages ≡ []
      → Shows [] s.active_messages (send temp_id ai_temp_id now text s)
  unfolding send sent_at
  send-Shows s h a o =
      subst (Shows [] s.active_messages)
        (sym (ap (λ x. sent_at x temp_id ai_temp_id now text s) a ∙ opened s h a o))
        (record {
          active = a;
          messages = refl;
          optimistic = refl;
          others = s.streams;
          streams = refl;
        })

set_optimistic-none : (s : Chat) → (set_optimistic [] s).optimistic_messages ≡ []
unfolding set_optimistic clear_effect
set_optimistic-none s = ground arith

chunk-none :
    (k c : Text) (s : Chat) → s.optimistic_messages ≡ [] → (chunk k c s).optimistic_messages ≡ []
unfolding chunk
chunk-none k c s o =
    let l = stream_grows k c s.streams in
    ap
      (λ os.
        (set_optimistic (map (with_content k (streamed k l)) os)
          (record s { streams = l })).optimistic_messages)
      o
    ∙ set_optimistic-none (record s { streams = l })

-- What is cleared stays so: a piece finds no placeholder.
pub feed-none :
    (k : Text) (cs : List Text) (s : Chat)
    → s.optimistic_messages ≡ []
    → (feed k cs s).optimistic_messages ≡ []
unfolding feed
feed-none k [] s o = o
feed-none k (c ∷ cs) s o = feed-none k cs (chunk k c s) (chunk-none k c s o)
