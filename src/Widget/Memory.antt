-- ===== src/Widget/Memory.antt =====
-- Which conversation a message of the widget goes to, and what becomes of a text that is entered.
mod Tests
use noant.Base.{
  ℕ, ◌==◌, Text, ◌===◌, Bool, true, false, not, ◌||◌, ◌&&◌, ◌⊎◌, ◌∙◌, sym, subst, map, if_intro,
  Bool-cases, inl, inr, Option, none, some, List, [], ◌∷◌, ◌++◌, All, if◌then◌else◌, ◌≡◌, ◌≢◌, refl,
  ap, arith, codes, ===-eq-false, ===_refl,
}
use noant.Json.{Value, truthy, member}
use noant.Widget.{
  Widget, Payload, Event, type_text, enter, click, toggle_box, open_box, close_box, error, load,
  render, toggle, payload_of, draws, draws_all, begins, requests, sends, send_message, handle_send,
  push, answered, read, understood, confused, idle, on_load, on_error, step, run, trim, trim_start,
  trim_end, is_space,
}

-- The payload has the id of a conversation.
abbrev Carries : Option Value → Type 0
Carries none = ⊥
Carries (some v) = truthy v ≡ true

-- The widget has the id of a conversation, and so do the payloads that were sent after `before`.
pub record IsIn (before : List Payload) (w : Widget) : Type 0 where
  pub known : truthy w.conversation_id ≡ true
  pub since : List Payload
  pub sent : w.sent ≡ since ++ before
  pub carry : All (λ (p : Payload). Carries p.conversation_id) since

module _ (before : List Payload) where
  -- Only the id and the payloads matter.
  same :
      (w v : Widget)
      → v.conversation_id ≡ w.conversation_id
      → v.sent ≡ w.sent
      → IsIn before w
      → IsIn before v
  same w v e f i = record {
    known = rw e i.known;
    since = i.since;
    sent = rw f i.sent;
    carry = i.carry;
  }

  requests-IsIn : (t : Text) (w : Widget) → IsIn before w → IsIn before (requests t w)
  unfolding requests
  requests-IsIn t w i = record {
    known = i.known;
    since = payload_of w t ∷ i.since;
    sent = ap (λ l. payload_of w t ∷ l) i.sent;
    carry = (carries, i.carry);
  }
    where
      carries : Carries (if truthy w.conversation_id then some w.conversation_id else none)
      carries =
          if_intro Carries (truthy w.conversation_id) (some w.conversation_id) none (λ e. e)
            (λ e. cc)

  sends-IsIn : (t : Text) (w : Widget) → IsIn before w → IsIn before (sends t w)
  unfolding sends begins render
  sends-IsIn t w i =
      let v : Widget = render (begins t w) in
      let j : IsIn before v = same w v refl refl i in
      if_intro (IsIn before) (draws_all v.messages) (requests t v) v (λ _. requests-IsIn t v j)
        (λ _. j)

  send_message-IsIn : (t : Text) (w : Widget) → IsIn before w → IsIn before (send_message t w)
  unfolding send_message
  send_message-IsIn t w i =
      if_intro (IsIn before) (w.sending || trim t === []) w (sends t w) (λ _. i)
        (λ _. sends-IsIn t w i)

  handle_send-IsIn : (w : Widget) → IsIn before w → IsIn before (handle_send w)
  unfolding handle_send
  handle_send-IsIn w i =
      if_intro (IsIn before) (trim w.input === []) w
        (send_message (trim w.input) (record w { input = [] })) (λ _. i)
        (λ _. send_message-IsIn (trim w.input) (record w { input = [] }) (same w _ refl refl i))

  answered-IsIn :
      (reply id : Value) (w : Widget) → IsIn before w → IsIn before (answered reply id w)
  unfolding answered push
  answered-IsIn reply id w i =
      let v = if truthy reply then push reply w else w in
      let j =
        if_intro (IsIn before) (truthy reply) (push reply w) w (λ _. same w _ refl refl i)
          (λ _. i) in
      if_intro (IsIn before) (truthy id) (record v { conversation_id = id }) v
        (λ e. record { known = e; since = j.since; sent = j.sent; carry = j.carry }) (λ _. j)

  read-IsIn : (o p : Option Value) (w : Widget) → IsIn before w → IsIn before (read o p w)
  unfolding read push
  read-IsIn (some x) (some y) w i = answered-IsIn x y w i
  read-IsIn none p w i = same w _ refl refl i
  read-IsIn (some x) none w i = same w _ refl refl i

  understood-IsIn : (o : Option Value) (w : Widget) → IsIn before w → IsIn before (understood o w)
  unfolding understood push
  understood-IsIn none w i = same w _ refl refl i
  understood-IsIn (some x) w i =
      read-IsIn (member x (codes "reply")) (member x (codes "conversation_id")) w i

  on_load-IsIn :
      (status : ℕ) (o : Option Value) (w : Widget)
      → IsIn before w
      → IsIn before (on_load status o w)
  unfolding on_load render idle push
  on_load-IsIn status o w i = same _ _ refl refl (
      if_intro (IsIn before) (status == 200) (understood o (idle w)) (push _ (idle w))
        (λ _. understood-IsIn o (idle w) (same w _ refl refl i)) (λ _. same w _ refl refl i))

  step-IsIn : (e : Event) (w : Widget) → IsIn before w → IsIn before (step e w)
  unfolding step on_error toggle render push idle
  step-IsIn (type_text t) w i = same w _ refl refl i
  step-IsIn enter w i = handle_send-IsIn w i
  step-IsIn click w i =
      if_intro (IsIn before) w.screen.disabled w (handle_send w) (λ _. i)
        (λ _. handle_send-IsIn w i)
  step-IsIn toggle_box w i = same w _ refl refl i
  step-IsIn open_box w i =
      if_intro (IsIn before) (not w.is_open) (toggle w) w (λ _. same w _ refl refl i) (λ _. i)
  step-IsIn close_box w i =
      if_intro (IsIn before) w.is_open (toggle w) w (λ _. same w _ refl refl i) (λ _. i)
  step-IsIn error w i =
      if_intro (IsIn before) (w.in_flight == 0) w (on_error w) (λ _. i) (λ _. same w _ refl refl i)
  step-IsIn (load status o) w i =
      if_intro (IsIn before) (w.in_flight == 0) w (on_load status o w) (λ _. i)
        (λ _. on_load-IsIn status o w i)

  run_from-IsIn : (es : List Event) (w : Widget) → IsIn before w → IsIn before (run es w)
  unfolding run
  run_from-IsIn [] w i = i
  run_from-IsIn (e ∷ es) w i = run_from-IsIn es (step e w) (step-IsIn e w i)

-- A widget that has the id of a conversation has one after any sequence of events, and each
-- message that it sent in between names a conversation.
pub run-IsIn :
    (es : List Event) (w : Widget) → truthy w.conversation_id ≡ true → IsIn w.sent (run es w)
run-IsIn es w e =
    run_from-IsIn w.sent es w (record { known = e; since = []; sent = refl; carry = tt })

trim_end-solid : (c : ℕ) (s : Text) → is_space c ≡ false → trim_end (c ∷ s) ≡ c ∷ trim_end s
trim_end-solid c s e = ap (λ b. if b && trim_end s === [] then [] else c ∷ trim_end s) e

trim-solid : (c : ℕ) (s : Text) → is_space c ≡ false → trim (c ∷ s) ≡ c ∷ trim_end s
trim-solid c s e = ap (λ b. trim_end (if b then trim_start s else c ∷ s)) e ∙ trim_end-solid c s e

-- A text that `trim` leaves something of begins, trimmed, with that.
trim_cases :
    (s : Text) → (trim s ≡ []) ⊎ ((c : ℕ) × (r : Text) × (is_space c ≡ false) × (trim s ≡ c ∷ r))
trim_cases [] = inl refl
trim_cases (c ∷ s) = elim (Bool-cases (is_space c)) [
  | inl e ↦
      subst (λ t. (t ≡ []) ⊎ ((d : ℕ) × (r : Text) × (is_space d ≡ false) × (t ≡ d ∷ r)))
        (sym (ap (λ b. trim_end (if b then trim_start s else c ∷ s)) e)) (trim_cases s)
  | inr e ↦ inr (c, trim_end s, e, trim-solid c s e)
]

cons-not-nil : (c : ℕ) (s : Text) → is_space c ≡ false → trim (c ∷ s) ≢ []
cons-not-nil c s e f = cc (trim-solid c s e, f)

trim-trim-solid : (s : Text) → trim s ≢ [] → trim (trim s) ≢ []
trim-trim-solid s h e = elim (trim_cases s) [
  | inl q ↦ h q
  | inr (c, r, k, q) ↦ cons-not-nil c r k (ap trim (sym q) ∙ e)
]

-- Enter on a text that is not blank empties the input. The trimmed text is sent if the widget is not
-- sending; else nothing is sent, and the text is lost. The messages so far can be drawn.
pub sent-enter :
    (w : Widget)
    → trim w.input ≢ []
    → draws_all w.messages ≡ true
    → ((step enter w).input ≡ [])
      × (map (λ p. p.message) (step enter w).sent
          ≡ (if w.sending then [] else trim w.input ∷ []) ++ map (λ p. p.message) w.sent)
unfolding step handle_send send_message sends begins requests payload_of render draws
sent-enter w h d =
    rw (===-eq-false (trim w.input) [] h)
      (rw (===-eq-false (trim (trim w.input)) [] (trim-trim-solid w.input h)) (ground arith))
