-- ===== src/Alerts/Spacing.antt =====
-- How often the sidebar fetches, and what it shows.
mod Tests
use noant.Base.{
  ℕ, ◌+◌, ◌≤◌, ltb, Text, Bool, true, false, not, ◌||◌, ◌-◌, ◌⊎◌, inl, inr, subst, sym, ap,
  Bool-cases, List, [], ◌∷◌, All, if_intro, if◌then◌else◌, ◌≡◌, refl, arith,
}
use noant.Alerts.{
  Alerts, Sidebar, Cause, poll, live, Event, interval, refresh, message, arrived, fetch_alerts,
  refreshes, refresh_alerts, alerts_of, step, run, mounted,
}

-- The times of the events are more than six seconds after 1970.
abbrev pub Late : Event → Type 0
Late (interval now) = 6000 ≤ now
Late (refresh now) = 6000 ≤ now
Late (message type now) = 6000 ≤ now
Late (arrived r) = Unit

-- A fetch at `now` behind those of the log.
abbrev pub Follows : ℕ → Cause → List (ℕ × Cause) → Type 0
Follows now live log = Unit
Follows now poll [] = Unit
Follows now poll ((t, c) ∷ log) = t + 6000 ≤ now

abbrev pub IsSpaced : List (ℕ × Cause) → Type 0
IsSpaced [] = Unit
IsSpaced ((t, c) ∷ log) = Follows t c log × IsSpaced log

abbrev Newest : ℕ → List (ℕ × Cause) → Type 0
Newest last [] = Unit
Newest last ((t, c) ∷ log) = last ≡ t

abbrev pub Sums : Alerts → Type 0
Sums a =
    a.total
    ≡ a.unread_chats
      + a.unknown_questions
      + a.channel_issues
      + a.unread_notifications
      + (if a.billing_alert then 1 else 0)

pub record IsValid (s : Sidebar) : Type 0 where
  pub spaced : IsSpaced s.log
  pub sums : Sums s.alerts
  pub newest : Newest s.last_fetch s.log
  pub rests : (s.has_user ≡ true) ⊎ (s.log ≡ [])

poll-Follows :
    (now last : ℕ) (log : List (ℕ × Cause))
    → Newest last log
    → ltb (now - last) 6000 ≡ false
    → Follows now poll log
poll-Follows now last [] n e = tt
poll-Follows now last ((t, c) ∷ log) n e = ground arith

poll-IsValid : (now : ℕ) (s : Sidebar) → IsValid s → IsValid (fetch_alerts poll now s)
unfolding fetch_alerts
poll-IsValid now s v =
    let started = record s { last_fetch = now; log = (now, poll) ∷ s.log } in
    if_intro IsValid (not s.has_user) s (if ltb (now - s.last_fetch) 6000 then s else started)
      (λ _. v)
      (λ u.
        if_intro IsValid (ltb (now - s.last_fetch) 6000) s started (λ _. v)
          (λ e. record {
            spaced = (poll-Follows now s.last_fetch s.log v.newest e, v.spaced);
            sums = v.sums;
            newest = refl;
            rests = inl (ground arith);
          }))

live-IsValid : (now : ℕ) (s : Sidebar) → 6000 ≤ now → IsValid s → IsValid (refresh_alerts now s)
unfolding refresh_alerts fetch_alerts
live-IsValid now s l v =
    let cleared = record s { last_fetch = 0 } in
    let started = record s { last_fetch = now; log = (now, live) ∷ s.log } in
    if_intro IsValid (not s.has_user) cleared (if ltb (now - 0) 6000 then cleared else started)
      (λ u. record {
        spaced = v.spaced;
        sums = v.sums;
        newest = subst (Newest 0) (sym (none_left u v.rests)) tt;
        rests = v.rests;
      })
      (λ u.
        if_intro IsValid (ltb (now - 0) 6000) cleared started (λ e. ground arith)
          (λ e. record {
            spaced = (tt, v.spaced);
            sums = v.sums;
            newest = refl;
            rests = inl (ground arith);
          }))
  where
    none_left : not s.has_user ≡ true → (s.has_user ≡ true) ⊎ (s.log ≡ []) → s.log ≡ []
    none_left u (inl h) = ground arith
    none_left u (inr h) = h

step-IsValid : (e : Event) (s : Sidebar) → Late e → IsValid s → IsValid (step e s)
unfolding step alerts_of
step-IsValid (interval now) s l v = poll-IsValid now s v
step-IsValid (refresh now) s l v = live-IsValid now s l v
step-IsValid (message type now) s l v =
    if_intro IsValid (refreshes type) (refresh_alerts now s) s (λ _. live-IsValid now s l v)
      (λ _. v)
step-IsValid (arrived r) s l v = record {
  spaced = v.spaced;
  sums = refl;
  newest = v.newest;
  rests = v.rests;
}

run_from-IsValid : (es : List Event) (s : Sidebar) → All Late es → IsValid s → IsValid (run es s)
unfolding run
run_from-IsValid [] s l v = v
run_from-IsValid (e ∷ es) s l v = run_from-IsValid es (step e s) l.1 (step-IsValid e s l.0 v)

-- After any sequence of events, each later than six seconds after 1970, the total of the sidebar
-- is the sum of its badges, and a fetch that the timer started came at least six seconds after the
-- fetch before it, whatever started that.
pub run-mounted-IsValid :
    (has_user : Bool) (es : List Event) → All Late es → IsValid (run es (mounted has_user))
unfolding mounted
run-mounted-IsValid has_user es l =
    run_from-IsValid es (mounted has_user) l
      (record { spaced = tt; sums = refl; newest = tt; rests = inr refl })
