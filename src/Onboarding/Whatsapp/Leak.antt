-- ===== src/Onboarding/Whatsapp/Leak.antt =====
-- An interval that `pollRef` does not hold any more.
mod Tests
use noant.Base.{
  ℕ, zero, suc, ◌+◌, ◌==◌, ltb, Text, codes, ◌===◌, Bool, true, false, not, ◌&&◌, ◌||◌, Option,
  none, some, List, [], ◌∷◌, ◌≡◌, refl, ◌∙◌, arith, if_intro, Option-cases, inl, inr, if◌then◌else◌,
}
use noant.Onboarding.Whatsapp.{
  Whatsapp, Interval, Status, Session, Event, types, connects, refreshes, verifies, unmounts,
  connect_got, refresh_got, verify_got, poll_got, ticks, without, clear_interval, start_polling,
  poll_failure, poll_code, poll_end, polled, tick, success, qr, handle_connect, connect_answered,
  handle_refresh, refresh_answered, handle_verify, verify_answered, unmount, step, run,
}

abbrev pub has_timer : ℕ → List Interval → Bool
has_timer n [] = false
has_timer n (i ∷ is) = i.timer == n || has_timer n is

abbrev pub is_timer : ℕ → Option ℕ → Bool
is_timer n none = false
is_timer n (some m) = m == n

-- The interval `n` runs, and `pollRef` holds another.
pub record IsLost (n : ℕ) (s : Whatsapp) : Type 0 where
  pub runs : has_timer n s.intervals ≡ true
  pub unheld : is_timer n s.poll_ref ≡ false
  pub old : ltb n s.timers ≡ true

has_timer-without :
    (n m : ℕ) (is : List Interval) → (m == n) ≡ false → has_timer n (without m is) ≡ has_timer n is
unfolding without
has_timer-without n m [] h = refl
has_timer-without n m (i ∷ is) h = ground (arith, has_timer-without n m is h)

clear_interval-IsLost : (n : ℕ) (s : Whatsapp) → IsLost n s → IsLost n (clear_interval s)
unfolding clear_interval
clear_interval-IsLost n s i = elim (Option-cases s.poll_ref) [
  | inl e ↦ ground arith
  | inr (m, e) ↦ ground (arith, has_timer-without n m s.intervals)
]

start_polling-IsLost :
    (n : ℕ) (sid : Text) (s : Whatsapp) → IsLost n s → IsLost n (start_polling sid s)
unfolding start_polling
start_polling-IsLost n sid s i = ground arith

poll_failure-IsLost : (n : ℕ) (m : Text) (s : Whatsapp) → IsLost n s → IsLost n (poll_failure m s)
unfolding poll_failure
poll_failure-IsLost n m s i =
    clear_interval-IsLost n _ (record { runs = i.runs; unheld = i.unheld; old = i.old })

poll_end-IsLost : (n : ℕ) (r : Status) (s : Whatsapp) → IsLost n s → IsLost n (poll_end r s)
unfolding poll_end
poll_end-IsLost n r s i =
    if_intro (λ v. IsLost n v) (r.status === codes "expired")
      (poll_failure (codes "QR code expired") s)
      (if r.status === codes "failed" then poll_failure (codes "Connection failed") s else s)
      (λ e. poll_failure-IsLost n (codes "QR code expired") s i)
      (λ e.
        if_intro (λ v. IsLost n v) (r.status === codes "failed")
          (poll_failure (codes "Connection failed") s) s
          (λ e. poll_failure-IsLost n (codes "Connection failed") s i) (λ e. i))

poll_code-IsLost :
    (n : ℕ) (seen : Text) (r : Status) (s : Whatsapp) → IsLost n s → IsLost n (poll_code seen r s)
unfolding poll_code
poll_code-IsLost n seen r s i = ground arith

polled-IsLost :
    (n : ℕ) (seen : Text) (r : Status) (s : Whatsapp) → IsLost n s → IsLost n (polled seen r s)
unfolding polled
polled-IsLost n seen r s i =
    if_intro (λ v. IsLost n v) r.connected (clear_interval (record s { view = success }))
      (poll_end r (poll_code seen r s))
      (λ e.
        clear_interval-IsLost n (record s { view = success })
          (record { runs = i.runs; unheld = i.unheld; old = i.old }))
      (λ e. poll_end-IsLost n r (poll_code seen r s) (poll_code-IsLost n seen r s i))

connect_answered-IsLost :
    (n : ℕ) (r : Session) (s : Whatsapp) → IsLost n s → IsLost n (connect_answered (some r) s)
unfolding connect_answered
connect_answered-IsLost n r s i =
    if_intro (λ v. IsLost n v) (r.status === codes "connected")
      (record s { session_id = r.session_id; view = success })
      (start_polling r.session_id (record s { session_id = r.session_id; view = qr }))
      (λ e. record { runs = i.runs; unheld = i.unheld; old = i.old })
      (λ e.
        start_polling-IsLost n r.session_id (record s { session_id = r.session_id; view = qr })
          (record { runs = i.runs; unheld = i.unheld; old = i.old }))

step-IsLost : (n : ℕ) (e : Event) (s : Whatsapp) → IsLost n s → IsLost n (step e s)
unfolding step handle_connect connect_answered handle_refresh refresh_answered handle_verify
    verify_answered unmount tick
step-IsLost n (types t) s i = ground arith
step-IsLost n connects s i = ground arith
step-IsLost n refreshes s i = ground arith
step-IsLost n verifies s i = ground arith
step-IsLost n unmounts s i = clear_interval-IsLost n s i
step-IsLost n (connect_got none) s i = ground arith
step-IsLost n (connect_got (some r)) s i = connect_answered-IsLost n r s i
step-IsLost n (refresh_got none) s i = ground arith
step-IsLost n (refresh_got (some sid)) s i =
    start_polling-IsLost n sid _ (record { runs = i.runs; unheld = i.unheld; old = i.old })
step-IsLost n (verify_got none) s i = ground arith
step-IsLost n (verify_got (some true)) s i =
    clear_interval-IsLost n _ (record { runs = i.runs; unheld = i.unheld; old = i.old })
step-IsLost n (verify_got (some false)) s i = ground arith
step-IsLost n (poll_got seen r) s i = polled-IsLost n seen r s i
step-IsLost n (ticks j) s i = ground arith

run-IsLost : (n : ℕ) (es : List Event) (s : Whatsapp) → IsLost n s → IsLost n (run es s)
unfolding run
run-IsLost n [] s i = i
run-IsLost n (e ∷ es) s i = run-IsLost n es (step e s) (step-IsLost n e s i)

refreshed-IsLost :
    (sid : Text) (n : ℕ) (s : Whatsapp)
    → s.poll_ref ≡ some n
    → has_timer n s.intervals ≡ true
    → ltb n s.timers ≡ true
    → IsLost n (refresh_answered (some sid) s)
unfolding refresh_answered start_polling
refreshed-IsLost sid n s p h l = ground arith

-- When a new code is asked for while an interval runs and the answer comes, the former interval runs
-- on whatever happens then: neither a connection nor the end of the page ends it.
pub has_timer-run-refreshed :
    (sid : Text) (n : ℕ) (s : Whatsapp)
    → s.poll_ref ≡ some n
    → has_timer n s.intervals ≡ true
    → ltb n s.timers ≡ true
    → (es : List Event) → has_timer n ((run es (refresh_answered (some sid) s)).intervals) ≡ true
has_timer-run-refreshed sid n s p h l es =
    (run-IsLost n es (refresh_answered (some sid) s) (refreshed-IsLost sid n s p h l)).runs
