-- ===== src/Socket/Handlers/Laws.antt =====
-- Who is called, and with what.
mod Tests
use noant.Base.{
  ℕ, Text, codes, Bool, true, false, not, ◌==◌, ==_iff, ==_refl, Bool-cases, Option, none, some,
  List, [], ◌∷◌, ◌++◌, All, map, keep_if, append_assoc, ◌≡◌, ◌≢◌, refl, arith, inl, inr,
  if◌then◌else◌,
}
use mathlib.Core.List.{reverse, reverse-cons, append-nil}
use noant.Json.{Value, Fields, obj, truthy, or, member, find_field, str}
use noant.Socket.{Manager, WsMessage, Effect, call, has, without}
use noant.Socket.Message.{normalize}
use noant.Socket.Handlers.{subscribe, unsubscribe, deliver, received, parsed, on_message}

-- The handlers up to the first that throws, that one included.
abbrev pub until_throw : (ℕ → Bool) → List ℕ → List ℕ
until_throw p [] = []
until_throw p (h ∷ hs) = if p h then h ∷ [] else h ∷ until_throw p hs

-- What a delivery adds to the log, the newest first.
abbrev pub calls : WsMessage → List ℕ → List Effect
calls msg hs = reverse (map (λ h. call h msg) hs)

deliver-eq-calls :
    (parse : Text → Option Value) (throws : ℕ → WsMessage → Bool) (msg : WsMessage) (hs : List ℕ)
    (log : List Effect)
    → deliver parse throws msg hs log ≡ calls msg (until_throw (λ h. throws h msg) hs) ++ log
unfolding deliver
deliver-eq-calls parse throws msg [] log = refl
deliver-eq-calls parse throws msg (h ∷ hs) log = elim (Bool-cases (throws h msg)) [
  | inl thrown ↦ rw thrown
  | inr fine ↦ rw fine (simp (deliver-eq-calls parse throws msg hs, reverse-cons, append_assoc))
]

truthy-or : (a b : Value) → truthy b ≡ true → truthy (or a b) ≡ true
unfolding or
truthy-or a b h = ground arith

normalize_obj :
    (now : Text) (fs : Fields)
    → (msg : WsMessage) × (normalize now (obj fs) ≡ some msg) × (truthy msg.type ≡ true)
unfolding normalize member truthy
normalize_obj now fs =
    (_, refl, truthy-or (find_field (codes "type") fs) (str (codes "new_message")) refl)

-- A message event whose text is a JSON object reaches the handlers in the order in which they
-- subscribed, up to the first that throws, that one included; each is given the same message, and
-- its type is truthy.
pub log-on_message :
    (parse : Text → Option Value) (throws : ℕ → WsMessage → Bool) (now event : Text) (m : Manager)
    (fs : Fields)
    → parse event ≡ some (obj fs)
    → (msg : WsMessage) × (truthy msg.type ≡ true)
      × ((on_message parse throws now event m).log
          ≡ calls msg (until_throw (λ h. throws h msg) m.handlers) ++ m.log)
unfolding on_message
log-on_message parse throws now event m fs p =
    let (msg, n, t) = normalize_obj now fs in
    (msg, t, rw (p, n) (deliver-eq-calls parse throws msg m.handlers m.log))

-- No handler is listed twice.
abbrev pub IsDistinct : List ℕ → Type 0
IsDistinct [] = Unit
IsDistinct (h ∷ hs) = (has h hs ≡ false) × IsDistinct hs

has-append : (h k : ℕ) (hs : List ℕ) → has h hs ≡ false → k ≢ h → has h (hs ++ k ∷ []) ≡ false
has-append h k [] n ne = ground arith
has-append h k (j ∷ hs) n ne = ground (arith, has-append h k hs)

IsDistinct-append :
    (h : ℕ) (hs : List ℕ) → has h hs ≡ false → IsDistinct hs → IsDistinct (hs ++ h ∷ [])
IsDistinct-append h [] n d = (refl, tt)
IsDistinct-append h (j ∷ hs) n d = ground (arith, has-append j h hs, IsDistinct-append h hs)

has-without : (h k : ℕ) (hs : List ℕ) → has h hs ≡ false → has h (without k hs) ≡ false
has-without h k [] n = refl
has-without h k (j ∷ hs) n = ground (arith, has-without h k hs)

IsDistinct-without : (h : ℕ) (hs : List ℕ) → IsDistinct hs → IsDistinct (without h hs)
IsDistinct-without h [] d = tt
IsDistinct-without h (j ∷ hs) d = ground (arith, has-without j h hs, IsDistinct-without h hs)

has-without_self : (h : ℕ) (hs : List ℕ) → has h (without h hs) ≡ false
has-without_self h [] = refl
has-without_self h (j ∷ hs) = ground (arith, has-without_self h hs)

without_none : (h : ℕ) (hs : List ℕ) → has h hs ≡ false → without h hs ≡ hs
without_none h [] n = refl
without_none h (j ∷ hs) n = ground (arith, without_none h hs)

without-append : (h : ℕ) (hs : List ℕ) → has h hs ≡ false → without h (hs ++ h ∷ []) ≡ hs
without-append h [] n = ground arith
without-append h (j ∷ hs) n = ground (arith, without-append h hs)

-- Handlers stay distinct when one subscribes, also for a second time, and when one is taken off;
-- one that is taken off is not there any more; and taking off a new handler at once gives back the
-- handlers from before.
pub subscribe-unsubscribe :
    (h : ℕ) (m : Manager)
    → IsDistinct m.handlers
    → IsDistinct (subscribe h m).handlers
      × IsDistinct (unsubscribe h m).handlers
      × (has h (unsubscribe h m).handlers ≡ false)
      × (has h m.handlers ≡ false → (unsubscribe h (subscribe h m)).handlers ≡ m.handlers)
unfolding subscribe unsubscribe
subscribe-unsubscribe h m d = (
  ground (arith, IsDistinct-append h m.handlers),
  IsDistinct-without h m.handlers d,
  has-without_self h m.handlers,
  λ n. rw n (without-append h m.handlers n),
)
