-- ===== src/Widget/Transcript.antt =====
-- What the widget shows, sends and remembers, after any sequence of events.
mod Tests
use noant.Base.{
  ℕ, ◌+◌, ◌-◌, codes, ◌==◌, Text, ◌===◌, Bool, true, false, not, ◌||◌, if_intro, Option, none, some,
  List, [], ◌∷◌, ◌++◌, map, All, All-append, append_assoc, if◌then◌else◌, ◌≡◌, refl, sym, ap, ◌∙◌,
  subst, arith,
}
use noant.Json.{Value, str, truthy, member}
use noant.Widget.{
  Widget, Config, Role, user, ai, Message, Payload, Event, type_text, enter, click, toggle_box,
  open_box, close_box, error, load, render, built, toggle, payload_of, draws, draws_all, begins,
  requests, sends, send_message, handle_send, push, answered, understood, read, confused,
  unavailable, unreachable, idle, on_load, on_error, step, run, trim,
}

-- What the user wrote, of a list of messages.
abbrev pub user_texts : List Message → List Value
user_texts [] = []
user_texts (m ∷ ms) = elim m.role [ user ↦ m.content ∷ user_texts ms | ai ↦ user_texts ms ]

abbrev pub texts_sent : List Payload → List Value
texts_sent [] = []
texts_sent (p ∷ ps) = str p.message ∷ texts_sent ps

abbrev count : Bool → ℕ
count b = if b then 1 else 0

-- A reply that can be drawn, in an answer that is taken.
abbrev pub draws_reply : Option Value → Bool
draws_reply none = true
draws_reply (some reply) = draws reply

abbrev pub is_readable : Event → Bool
is_readable (load status none) = true
is_readable (load status (some v)) = not (status == 200) || draws_reply (member v (codes "reply"))
is_readable _ = true

-- The screen is that of the state, a request is in flight just while the widget is sending, and
-- the user's messages are those that were sent.
pub record IsValid (w : Widget) : Type 0 where
  pub drawable : draws_all w.messages ≡ true
  pub shown : w.screen.shown ≡ w.messages
  pub dots : w.screen.dots ≡ w.sending
  pub disabled : w.screen.disabled ≡ w.sending
  pub typing : w.typing ≡ w.sending
  pub one_request : w.in_flight ≡ count w.sending
  pub faithful : user_texts w.messages ≡ texts_sent w.sent

-- The same without the screen.
record IsReady (sending : Bool) (w : Widget) : Type 0 where
  drawable : draws_all w.messages ≡ true
  is_sending : w.sending ≡ sending
  typing : w.typing ≡ sending
  one_request : w.in_flight ≡ count sending
  faithful : user_texts w.messages ≡ texts_sent w.sent

render-IsValid : (b : Bool) (w : Widget) → IsReady b w → IsValid (render w)
unfolding render
render-IsValid b w r = record {
  drawable = r.drawable;
  shown = ground (arith, r.drawable);
  dots = ground (arith, r.drawable, r.typing, r.is_sending);
  disabled = ground (arith, r.drawable);
  typing = r.typing ∙ sym r.is_sending;
  one_request = r.one_request ∙ ap count (sym r.is_sending);
  faithful = r.faithful;
}

-- A text is drawn with what can be drawn, and is then sent.
sends-eq :
    (t : Text) (w : Widget)
    → draws_all w.messages ≡ true
    → sends t w ≡ requests t (render (begins t w))
unfolding sends begins render draws
sends-eq t w h = ap (λ b. if b then requests t (render (begins t w)) else render (begins t w)) h

requests-IsValid :
    (t : Text) (w : Widget)
    → IsValid w
    → w.sending ≡ false
    → IsValid (requests t (render (begins t w)))
unfolding requests begins render draws payload_of
requests-IsValid t w v e = record {
  drawable = v.drawable;
  shown = ground (arith, v.drawable);
  dots = ground (arith, v.drawable);
  disabled = ground (arith, v.drawable);
  typing = refl;
  one_request = ground (arith, v.one_request);
  faithful = ap (λ l. str t ∷ l) v.faithful;
}

send_message-IsValid : (t : Text) (w : Widget) → IsValid w → IsValid (send_message t w)
unfolding send_message
send_message-IsValid t w v =
    if_intro IsValid (w.sending || trim t === []) w (sends t w) (λ _. v)
      (λ e. subst IsValid (sym (sends-eq t w v.drawable)) (requests-IsValid t w v (ground arith)))

push-IsReady :
    (b : Bool) (c : Value) (w : Widget) → draws c ≡ true → IsReady b w → IsReady b (push c w)
unfolding push
push-IsReady b c w d r = record {
  drawable = ground (arith, r.drawable);
  is_sending = r.is_sending;
  typing = r.typing;
  one_request = r.one_request;
  faithful = r.faithful;
}

answered-IsReady :
    (b : Bool) (reply id : Value) (w : Widget)
    → draws reply ≡ true
    → IsReady b w
    → IsReady b (answered reply id w)
unfolding answered
answered-IsReady b reply id w d r =
    let v = if truthy reply then push reply w else w in
    let q =
      if_intro (IsReady b) (truthy reply) (push reply w) w (λ _. push-IsReady b reply w d r)
        (λ _. r) in
    if_intro (IsReady b) (truthy id) (record v { conversation_id = id }) v
      (λ _. record {
        drawable = q.drawable;
        is_sending = q.is_sending;
        typing = q.typing;
        one_request = q.one_request;
        faithful = q.faithful;
      })
      (λ _. q)

read-IsReady :
    (b : Bool) (o p : Option Value) (w : Widget)
    → draws_reply o ≡ true
    → IsReady b w
    → IsReady b (read o p w)
unfolding read draws
read-IsReady b (some x) (some y) w d r = answered-IsReady b x y w d r
read-IsReady b none p w d r = push-IsReady b confused w refl r
read-IsReady b (some x) none w d r = push-IsReady b confused w refl r

understood-IsReady :
    (b : Bool) (o : Option Value) (w : Widget)
    → is_readable (load 200 o) ≡ true
    → IsReady b w
    → IsReady b (understood o w)
unfolding understood draws
understood-IsReady b none w d r = push-IsReady b confused w refl r
understood-IsReady b (some x) w d r =
    read-IsReady b (member x (codes "reply")) (member x (codes "conversation_id")) w d r

idle-IsReady : (w : Widget) → IsValid w → w.in_flight == 0 ≡ false → IsReady false (idle w)
unfolding idle
idle-IsReady w v e = record {
  drawable = v.drawable;
  is_sending = refl;
  typing = refl;
  one_request = one w.sending w.in_flight v.one_request;
  faithful = v.faithful;
}
  where
    one : (b : Bool) (n : ℕ) → n ≡ count b → n - 1 ≡ 0
    one true n h = omega arith
    one false n h = omega arith

readable_lem :
    (status : ℕ) (o : Option Value)
    → is_readable (load status o) ≡ true
    → status == 200 ≡ true
    → is_readable (load 200 o) ≡ true
readable_lem status none h e = refl
readable_lem status (some v) h e = ground arith

on_load-IsValid :
    (status : ℕ) (o : Option Value) (w : Widget)
    → is_readable (load status o) ≡ true
    → IsValid w
    → w.in_flight == 0 ≡ false
    → IsValid (on_load status o w)
unfolding on_load draws
on_load-IsValid status o w d v e =
    let i = idle-IsReady w v e in
    render-IsValid false _ (
      if_intro (IsReady false) (status == 200) (understood o (idle w)) (push unavailable (idle w))
        (λ h. understood-IsReady false o (idle w) (readable_lem status o d h) i)
        (λ _. push-IsReady false unavailable (idle w) refl i))

handle_send-IsValid : (w : Widget) → IsValid w → IsValid (handle_send w)
unfolding handle_send
handle_send-IsValid w v =
    let cleared = record w { input = [] } in
    if_intro IsValid (trim w.input === []) w (send_message (trim w.input) cleared) (λ _. v)
      (λ _. send_message-IsValid (trim w.input) cleared (record {
        drawable = v.drawable;
        shown = v.shown;
        dots = v.dots;
        disabled = v.disabled;
        typing = v.typing;
        one_request = v.one_request;
        faithful = v.faithful;
      }))

toggle-IsValid : (w : Widget) → IsValid w → IsValid (toggle w)
unfolding toggle
toggle-IsValid w v = record {
  drawable = v.drawable;
  shown = v.shown;
  dots = v.dots;
  disabled = v.disabled;
  typing = v.typing;
  one_request = v.one_request;
  faithful = v.faithful;
}

pub step-IsValid : (e : Event) (w : Widget) → is_readable e ≡ true → IsValid w → IsValid (step e w)
unfolding step on_error draws
step-IsValid (type_text t) w d v = record {
  drawable = v.drawable;
  shown = v.shown;
  dots = v.dots;
  disabled = v.disabled;
  typing = v.typing;
  one_request = v.one_request;
  faithful = v.faithful;
}
step-IsValid enter w d v = handle_send-IsValid w v
step-IsValid click w d v =
    if_intro IsValid w.screen.disabled w (handle_send w) (λ _. v) (λ _. handle_send-IsValid w v)
step-IsValid toggle_box w d v = toggle-IsValid w v
step-IsValid open_box w d v =
    if_intro IsValid (not w.is_open) (toggle w) w (λ _. toggle-IsValid w v) (λ _. v)
step-IsValid close_box w d v =
    if_intro IsValid w.is_open (toggle w) w (λ _. toggle-IsValid w v) (λ _. v)
step-IsValid error w d v =
    if_intro IsValid (w.in_flight == 0) w (on_error w) (λ _. v)
      (λ e.
        render-IsValid false _ (push-IsReady false unreachable (idle w) refl (idle-IsReady w v e)))
step-IsValid (load status o) w d v =
    if_intro IsValid (w.in_flight == 0) w (on_load status o w) (λ _. v)
      (on_load-IsValid status o w d v)

run_from-IsValid :
    (es : List Event) (w : Widget)
    → All (λ e. is_readable e ≡ true) es
    → IsValid w
    → IsValid (run es w)
unfolding run
run_from-IsValid [] w d v = v
run_from-IsValid (e ∷ es) w d v = run_from-IsValid es (step e w) d.1 (step-IsValid e w d.0 v)

-- A widget that is built with any options keeps this through any sequence of events, where no answer
-- of status 200 has a `reply` that is neither a text nor falsy: the screen shows the
-- messages, the dots and the state of the button; at most one request is in flight, and one is just
-- while the widget is sending; the user's messages are those sent, in their order.
pub run-built-IsValid :
    (opts : Config) (es : List Event)
    → All (λ e. is_readable e ≡ true) es
    → IsValid (run es (built opts))
unfolding built draws
run-built-IsValid opts es d = run_from-IsValid es (built opts) d (record {
  drawable = refl;
  shown = refl;
  dots = refl;
  disabled = refl;
  typing = refl;
  one_request = refl;
  faithful = refl;
})
