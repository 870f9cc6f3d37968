-- ===== src/Chats/Effects.antt =====
-- What the effects keep up.
use noant.Base.{Text, false, ◌&&◌, Option, none, some, List, [], ◌∷◌, ◌≡◌, refl, arith}
use noant.Chats.{
  Message, Chat, has_text, delete_text, is_pending, delete_active, last_is_ai, has_real, is_some,
  poll_effect, stop_effect, clear_effect, set_pending, set_messages, set_optimistic,
}

pub has_text-delete_text : (k : Text) (l : List Text) → has_text k (delete_text k l) ≡ false
unfolding delete_text
has_text-delete_text k [] = refl
has_text-delete_text k (j ∷ l) = ground (arith, has_text-delete_text k l)

pub is_pending-delete_active :
    (o : Option Text) (l : List Text) → is_pending o (delete_active o l) ≡ false
is_pending-delete_active none l = refl
is_pending-delete_active (some k) l = has_text-delete_text k l

-- The interval is set just while the AI's answer to the open conversation is awaited; it is not
-- awaited behind a message of the AI; and no optimistic message stands beside the server's copy.
pub record IsConsistent (s : Chat) : Type 0 where
  pub polls : s.polling ≡ is_pending s.active_id s.pending_ai
  pub answered : (is_pending s.active_id s.pending_ai && last_is_ai s.active_messages) ≡ false
  pub cleared : (is_some s.active_id && has_real s.active_messages s.optimistic_messages) ≡ false

-- The first two parts, and the first.
pub record IsAnswered (s : Chat) : Type 0 where
  pub polls : s.polling ≡ is_pending s.active_id s.pending_ai
  pub answered : (is_pending s.active_id s.pending_ai && last_is_ai s.active_messages) ≡ false

pub poll_effect-polling :
    (s : Chat) → let t = poll_effect s in t.polling ≡ is_pending t.active_id t.pending_ai
unfolding poll_effect
poll_effect-polling s = ground arith

pub stop_effect-IsAnswered :
    (s : Chat) → s.polling ≡ is_pending s.active_id s.pending_ai → IsAnswered (stop_effect s)
unfolding stop_effect poll_effect
stop_effect-IsAnswered s h = ground (arith, is_pending-delete_active s.active_id s.pending_ai)

pub clear_effect-IsConsistent : (s : Chat) → IsAnswered s → IsConsistent (clear_effect s)
unfolding clear_effect
clear_effect-IsConsistent s h = ground (arith)

pub set_messages-IsConsistent :
    (ms : List Message) (s : Chat)
    → s.polling ≡ is_pending s.active_id s.pending_ai
    → IsConsistent (set_messages ms s)
unfolding set_messages
set_messages-IsConsistent ms s h =
    clear_effect-IsConsistent _ (stop_effect-IsAnswered (record s { active_messages = ms }) h)

pub set_optimistic-IsConsistent :
    (os : List Message) (s : Chat) → IsConsistent s → IsConsistent (set_optimistic os s)
unfolding set_optimistic
set_optimistic-IsConsistent os s h =
    clear_effect-IsConsistent (record s { optimistic_messages = os })
      (record { polls = h.polls; answered = h.answered })

-- The effects on the wait leave the messages alone.
stop_effect-cleared :
    (s : Chat)
    → (is_some s.active_id && has_real s.active_messages s.optimistic_messages) ≡ false
    → let t = stop_effect s in
      (is_some t.active_id && has_real t.active_messages t.optimistic_messages) ≡ false
unfolding stop_effect poll_effect
stop_effect-cleared s h = ground arith

poll_effect-cleared :
    (s : Chat)
    → (is_some s.active_id && has_real s.active_messages s.optimistic_messages) ≡ false
    → let t = poll_effect s in
      (is_some t.active_id && has_real t.active_messages t.optimistic_messages) ≡ false
unfolding poll_effect
poll_effect-cleared s h = ground arith

pub set_pending-IsConsistent :
    (l : List Text) (s : Chat) → IsConsistent s → IsConsistent (set_pending l s)
unfolding set_pending
set_pending-IsConsistent l s h =
    let t = poll_effect (record s { pending_ai = l }) in
    let a = stop_effect-IsAnswered t (poll_effect-polling (record s { pending_ai = l })) in
    record {
      polls = a.polls;
      answered = a.answered;
      cleared = stop_effect-cleared t (poll_effect-cleared (record s { pending_ai = l }) h.cleared);
    }

pub unread-IsConsistent :
    (s t : Chat)
    → IsConsistent s
    → t.polling ≡ s.polling
    → t.pending_ai ≡ s.pending_ai
    → t.active_id ≡ s.active_id
    → t.active_messages ≡ s.active_messages
    → t.optimistic_messages ≡ s.optimistic_messages
    → IsConsistent t
unread-IsConsistent s t h a b c d e = ground arith
