-- ===== src/Chats/Events/Polling.antt =====
-- The polling for an answer of the AI that does not come.
mod Tests
use noant.Base.{
  ℕ, zero, suc, ◌+◌, ◌≤◌, ◌<◌, ltb, Text, codes, ◌===◌, Bool, true, false, not, ◌&&◌, Option, none,
  some, List, [], ◌∷◌, All, if_intro, subst, sym, if◌then◌else◌, ◌≡◌, refl, arith,
}
use noant.Chats.{
  Message, Chat, has_text, is_pending, delete_active, last_is_ai, poll_effect, stop_effect,
  clear_effect, set_pending, set_messages,
}
use noant.Chats.Effects.{is_pending-delete_active}
use noant.Chats.Events.{Page, tick, polled}

-- A tick of the interval, or the result of a request that an earlier one sent.
pub data Poll : Type 0 where
  ticks : Poll
  answers : Option Page → Poll

pub poll : Poll → Chat → Chat
unfolding tick polled
poll ticks s = tick s
poll (answers r) s = polled r s

pub run_polls : List Poll → Chat → Chat
unfolding poll
run_polls [] s = s
run_polls (e ∷ es) s = run_polls es (poll e s)

-- No page ends with a message of the AI.
abbrev pub IsUnanswered : Poll → Type 0
IsUnanswered ticks = Unit
IsUnanswered (answers none) = Unit
IsUnanswered (answers (some p)) = last_is_ai p.messages ≡ false

abbrev pub count_ticks : List Poll → ℕ
count_ticks [] = 0
count_ticks (ticks ∷ es) = suc (count_ticks es)
count_ticks (answers r ∷ es) = count_ticks es

-- The `n`-th request of a wait before which `base` were sent.
pub record IsWaiting (base n : ℕ) (s : Chat) : Type 0 where
  pub polling : s.polling ≡ true
  pub pending : is_pending s.active_id s.pending_ai ≡ true
  pub poll_count : s.poll_count ≡ n
  pub polls : s.polls ≡ base + n

-- The wait is given up, behind 30 requests.
pub record IsOver (base : ℕ) (s : Chat) : Type 0 where
  pub polling : s.polling ≡ false
  pub pending : is_pending s.active_id s.pending_ai ≡ false
  pub failed : s.ai_poll_failed ≡ true
  pub polls : s.polls ≡ base + 30

nothing_below : (n : ℕ) → n < 0 → ⊥
nothing_below n h = omega arith

set_pending_lem :
    (l : List Text) (s : Chat)
    → is_pending s.active_id l ≡ false
    → let t = set_pending l s in
      (t.polling ≡ false) × (is_pending t.active_id t.pending_ai ≡ false) × (t.polls ≡ s.polls)
unfolding set_pending stop_effect poll_effect
set_pending_lem l s h = ground arith

tick-IsWaiting :
    (base n : ℕ) (s : Chat) → suc n ≤ 30 → IsWaiting base n s → IsWaiting base (suc n) (tick s)
unfolding tick
tick-IsWaiting base n s l h = ground arith

tick-IsOver : (base : ℕ) (s : Chat) → IsWaiting base 30 s → IsOver base (tick s)
unfolding tick
tick-IsOver base s h = ground (
  arith,
  set_pending_lem (delete_active s.active_id s.pending_ai) s
      (is_pending-delete_active s.active_id s.pending_ai),
)

tick-IsOver_again : (base : ℕ) (s : Chat) → IsOver base s → IsOver base (tick s)
unfolding tick
tick-IsOver_again base s h = ground arith

page-IsWaiting :
    (base n : ℕ) (p : Page) (s : Chat)
    → last_is_ai p.messages ≡ false
    → IsWaiting base n s
    → IsWaiting base n (polled (some p) s)
unfolding polled set_messages clear_effect stop_effect
page-IsWaiting base n p s e h = ground arith

page-IsOver : (base : ℕ) (p : Page) (s : Chat) → IsOver base s → IsOver base (polled (some p) s)
unfolding polled set_messages clear_effect stop_effect
page-IsOver base p s h = ground arith

poll-IsOver : (base : ℕ) (e : Poll) (s : Chat) → IsOver base s → IsOver base (poll e s)
unfolding poll
poll-IsOver base ticks s h = tick-IsOver_again base s h
poll-IsOver base (answers none) s h = unchanged
  where
    unchanged : IsOver base (polled none s)
    unchanged = ground arith
poll-IsOver base (answers (some p)) s h = page-IsOver base p s h

run_polls-IsOver :
    (base : ℕ) (es : List Poll) (s : Chat) → IsOver base s → IsOver base (run_polls es s)
unfolding run_polls
run_polls-IsOver base [] s h = h
run_polls-IsOver base (e ∷ es) s h = run_polls-IsOver base es (poll e s) (poll-IsOver base e s h)

-- A state `left` ticks before the wait is given up.
run_polls-waiting :
    (base n left : ℕ) (es : List Poll) (s : Chat)
    → n + left ≡ 30
    → All IsUnanswered es
    → IsWaiting base n s
    → left < count_ticks es
    → IsOver base (run_polls es s)
unfolding run_polls poll polled
run_polls-waiting base n left [] s e a h l = elim (nothing_below left l) [ ]
run_polls-waiting base n left (answers none ∷ es) s e a h l =
    run_polls-waiting base n left es s e a.1 h l
run_polls-waiting base n left (answers (some p) ∷ es) s e a h l =
    run_polls-waiting base n left es (polled (some p) s) e a.1 (page-IsWaiting base n p s a.0 h) l
run_polls-waiting base n zero (ticks ∷ es) s e a h l =
    run_polls-IsOver base es (tick s)
      (tick-IsOver base s (subst (λ k. IsWaiting base k s) (omega arith) h))
run_polls-waiting base n (suc left) (ticks ∷ es) s e a h l =
    run_polls-waiting base (suc n) left es (tick s) (omega arith) a.1
      (tick-IsWaiting base n s (omega arith) h) (omega arith)

-- From a state in which the polling has just begun, where no page of the server ends with a message
-- of the AI: after 31 ticks or more the polling has ended, behind exactly 30 requests; the answer is
-- no longer awaited, and the failure is shown.
pub begun-IsOver :
    (es : List Poll) (s : Chat)
    → s.polling ≡ true
    → is_pending s.active_id s.pending_ai ≡ true
    → s.poll_count ≡ 0
    → All IsUnanswered es
    → 30 < count_ticks es
    → IsOver s.polls (run_polls es s)
begun-IsOver es s p i c a l =
    run_polls-waiting s.polls 0 30 es s (omega arith) a
      (record { polling = p; pending = i; poll_count = c; polls = omega arith }) l
