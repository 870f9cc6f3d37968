-- ===== src/Chats/Events/Loading.antt =====
-- Pages of messages and live messages.
mod Tests
use noant.Base.{
  Text, codes, ◌===◌, ===_refl, ===_iff, append-nil, append_assoc, Bool, true, false, not, ◌&&◌,
  ◌||◌, Option, none, some, List, [], ◌∷◌, ◌++◌, All, if_intro, if◌then◌else◌, ◌≡◌, refl, ap, ◌∙◌,
  arith, Bool-cases, inl, inr, sym, subst,
}
use noant.Chats.{
  Message, Chat, poll_effect, stop_effect, clear_effect, set_pending, set_messages, delete_active,
}
use noant.Chats.Events.{Page, same_id, load_effect, select, loaded, has_id, append_new, received}

-- Which conversation is open, through the effects.
set_messages_lem :
    (ms : List Message) (s : Chat)
    → ((set_messages ms s).active_messages ≡ ms) × ((set_messages ms s).active_id ≡ s.active_id)
unfolding set_messages clear_effect stop_effect poll_effect
set_messages_lem ms s = ground arith

select-active_id :
    (o : Option Text) (s : Chat) → same_id o s.active_id ≡ false → (select o s).active_id ≡ o
unfolding select load_effect clear_effect stop_effect poll_effect
select-active_id none s e = ground arith
select-active_id (some k) s e = ground arith

-- The answer to the first request for messages comes after that to the second, for another
-- conversation: the messages that were asked for first stand under the conversation that is open.
pub loaded-loaded-select :
    (k : Text) (first second : Page) (s : Chat)
    → same_id (some k) s.active_id ≡ false
    → let t = loaded (some first) (loaded (some second) (select (some k) s)) in
      (t.active_id ≡ some k) × (t.active_messages ≡ first.messages)
unfolding loaded
loaded-loaded-select k first second s e =
    let u = select (some k) s in
    let v = record u { msg_has_more = second.has_more; messages_loading = false } in
    let w = set_messages second.messages v in
    let x = record w { msg_has_more = first.has_more; messages_loading = false } in
    let l = set_messages_lem first.messages x in
    (l.1 ∙ ((set_messages_lem second.messages v).1 ∙ select-active_id (some k) s e), l.0)

-- No two messages have the same id.
abbrev pub IsDistinct : List Message → Type 0
IsDistinct [] = Unit
IsDistinct (m ∷ ms) = (has_id m.id ms ≡ false) × IsDistinct ms

-- Live messages for the open conversation, in order.
pub receive : List Message → Chat → Chat
receive [] s = s
receive (m ∷ ms) s = receive ms (received m s)

has_id-append :
    (k : Text) (ms : List Message) (m : Message)
    → has_id k (ms ++ m ∷ []) ≡ (has_id k ms || m.id === k)
has_id-append k [] m = ground arith
has_id-append k (n ∷ ms) m = ground (arith, has_id-append k ms m)

IsDistinct-append :
    (ms : List Message) (m : Message)
    → has_id m.id ms ≡ false
    → IsDistinct ms
    → IsDistinct (ms ++ m ∷ [])
IsDistinct-append [] m h d = (refl, tt)
IsDistinct-append (n ∷ ms) m h d = (
  ground (arith, has_id-append n.id ms m, ===_iff n.id m.id, ===_iff m.id n.id),
  IsDistinct-append ms m (ground arith) d.1,
)

-- What `received` makes of the messages.
abbrev after : Message → List Message → List Message
after m ms = if has_id m.id ms then ms else ms ++ m ∷ []

append_new-after :
    (m : Message) (s : Chat) → (append_new m s).active_messages ≡ after m s.active_messages
unfolding append_new
append_new-after m s =
    if_intro (λ (t : Chat). t.active_messages ≡ after m s.active_messages)
      (has_id m.id s.active_messages) s (set_messages (s.active_messages ++ m ∷ []) s)
      (λ e. ground arith) (λ e. (set_messages_lem (s.active_messages ++ m ∷ []) s).0 ∙ ground arith)

set_pending-messages :
    (l : List Text) (s : Chat) → (set_pending l s).active_messages ≡ s.active_messages
unfolding set_pending stop_effect poll_effect
set_pending-messages l s = ground arith

received-after :
    (m : Message) (s : Chat) → (received m s).active_messages ≡ after m s.active_messages
unfolding received
received-after m s =
    let t = append_new m s in
    let l = delete_active t.active_id t.pending_ai in
    if_intro (λ (u : Chat). u.active_messages ≡ after m s.active_messages)
      (m.sender_type === codes "ai") (set_pending l t) t
      (λ _. set_pending-messages l t ∙ append_new-after m s) (λ _. append_new-after m s)

-- The messages `ms` came live behind `before`: none of `before` is lost or moved, each of `ms` is
-- there, and the ids are distinct.
pub record IsReceived (before ms after_all : List Message) : Type 0 where
  pub new : List Message
  pub kept : after_all ≡ before ++ new
  pub distinct : IsDistinct after_all
  pub present : All (λ (m : Message). has_id m.id after_all ≡ true) ms

has_id-kept : (k : Text) (ms new : List Message) → has_id k ms ≡ true → has_id k (ms ++ new) ≡ true
has_id-kept k (m ∷ ms) new h = ground (arith, has_id-kept k ms new)
has_id-kept k [] new h = cc

after-IsReceived :
    (m : Message) (before : List Message)
    → IsDistinct before
    → (new : List Message) × (after m before ≡ before ++ new)
      × IsDistinct (after m before)
      × (has_id m.id (after m before) ≡ true)
after-IsReceived m before d = elim (Bool-cases (has_id m.id before)) [
  | inl e ↦ rw e ([], sym (append-nil before), d, e)
  | inr e ↦ rw e (
    m ∷ [],
    refl,
    IsDistinct-append before m e d,
    has_id-append m.id before m ∙ rw (===_refl m.id) rw e refl,
  )
]

-- Live messages that arrive in any order and any number of times are kept once each, behind the
-- messages that were there.
pub receive-IsReceived :
    (ms : List Message) (s : Chat)
    → IsDistinct s.active_messages
    → IsReceived s.active_messages ms (receive ms s).active_messages
unfolding receive
receive-IsReceived [] s d = record {
  new = [];
  kept = sym (append-nil s.active_messages);
  distinct = d;
  present = tt;
}
receive-IsReceived (m ∷ ms) s d =
    let (new, kept, distinct, here) = after-IsReceived m s.active_messages d in
    let e = received-after m s in
    let r = receive-IsReceived ms (received m s) (subst IsDistinct (sym e) distinct) in
    record {
      new = new ++ r.new;
      kept = r.kept ∙ ap (λ l. l ++ r.new) (e ∙ kept) ∙ append_assoc s.active_messages new r.new;
      distinct = r.distinct;
      present = (
        subst (λ l. has_id m.id l ≡ true) (sym r.kept)
            (has_id-kept m.id (received m s).active_messages r.new
              (subst (λ l. has_id m.id l ≡ true) (sym e) here)),
        r.present,
      );
    }
