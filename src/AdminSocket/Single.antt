-- ===== src/AdminSocket/Single.antt =====
-- One socket or one timer.
mod Tests
use noant.Base.{
  ℕ, zero, suc, ◌+◌, ◌≤◌, ◌==◌, Bool, true, false, not, ◌&&◌, ◌||◌, Option, none, some, List, [],
  ◌∷◌, ◌≡◌, refl, arith, if_intro, Option-cases, inl, inr, if◌then◌else◌,
}
use noant.AdminSocket.{
  Phase, connecting, ready, closing, closed, Link, Hook, phase_of, is_live, is_open, is_connecting,
  has, ref_is_open, set_phase, without, connect, clear_timeout, close, on_open, on_close, on_error,
  on_message, fire, unmount, Event, opens, closes, errs, fires, receives, unmounts, step, run,
  start,
}

-- The sockets that are not closed.
abbrev pub live : List Link → ℕ
live [] = 0
live (l ∷ ls) = if is_live l.phase then suc (live ls) else live ls

abbrev pub count : List ℕ → ℕ
count [] = 0
count (t ∷ ts) = suc (count ts)

pub record IsSingle (s : Hook) : Type 0 where
  pub single : live s.links + count s.pending ≤ 1

abbrev pub flag : Bool → ℕ
flag true = 1
flag false = 0

live-set_phase :
    (n : ℕ) (p : Phase) (ls : List Link)
    → is_live (phase_of n ls) ≡ true
    → live (set_phase n p ls) + 1 ≡ live ls + flag (is_live p)
unfolding set_phase
live-set_phase n p [] h = ground arith
live-set_phase n p (l ∷ ls) h = ground (arith, live-set_phase n p ls)

count-without : (t : ℕ) (ts : List ℕ) → count (without t ts) ≤ count ts
unfolding without
count-without t [] = omega arith
count-without t (u ∷ ts) = ground (arith, count-without t ts)

count-without_of_has : (t : ℕ) (ts : List ℕ) → has t ts ≡ true → count (without t ts) + 1 ≤ count ts
unfolding without
count-without_of_has t [] h = ground arith
count-without_of_has t (u ∷ ts) h = ground (arith, count-without t ts, count-without_of_has t ts)

clear_timeout-IsSingle : (s : Hook) → IsSingle s → IsSingle (clear_timeout s)
unfolding clear_timeout
clear_timeout-IsSingle s i = elim (Option-cases s.reconnect_timeout) [
  | inl e ↦ ground arith
  | inr (t, e) ↦ ground (arith, count-without t s.pending)
]

close-IsSingle : (n : ℕ) (s : Hook) → IsSingle s → IsSingle (close n s)
unfolding close
close-IsSingle n s i = ground (arith, live-set_phase n closing s.links)

connect-IsSingle : (s : Hook) → live s.links + count s.pending ≡ 0 → IsSingle (connect s)
unfolding connect
connect-IsSingle s h = ground arith

fire-IsSingle : (t : ℕ) (s : Hook) → has t s.pending ≡ true → IsSingle s → IsSingle (fire t s)
unfolding fire
fire-IsSingle t s h i =
    connect-IsSingle (record s { pending = without t s.pending })
      (ground (arith, count-without_of_has t s.pending))

live_of_connecting : (p : Phase) → is_connecting p ≡ true → is_live p ≡ true
live_of_connecting connecting h = refl
live_of_connecting ready h = ground arith
live_of_connecting closing h = ground arith
live_of_connecting closed h = ground arith

on_open-IsSingle :
    (n : ℕ) (s : Hook)
    → is_connecting (phase_of n s.links) ≡ true
    → IsSingle s
    → IsSingle (on_open n s)
unfolding on_open
on_open-IsSingle n s h i =
    clear_timeout-IsSingle (record s { links = set_phase n ready s.links; connected = true })
      (record {
        single =
            ground (arith, live-set_phase n ready s.links, live_of_connecting (phase_of n s.links));
      })

on_close-IsSingle :
    (n : ℕ) (s : Hook) → is_live (phase_of n s.links) ≡ true → IsSingle s → IsSingle (on_close n s)
unfolding on_close
on_close-IsSingle n s h i = ground (arith, live-set_phase n closed s.links)

unmount-IsSingle : (s : Hook) → IsSingle s → IsSingle (unmount s)
unfolding unmount
unmount-IsSingle s i =
    let t = clear_timeout s in
    let j = clear_timeout-IsSingle s i in
    elim (Option-cases t.ws_ref) [
      | inl e ↦ ground (arith, j)
      | inr (n, e) ↦ ground (arith, close-IsSingle n t j)
    ]

step-IsSingle : (e : Event) (s : Hook) → IsSingle s → IsSingle (step e s)
unfolding step on_error on_message
step-IsSingle (opens n) s i =
    if_intro (λ t. IsSingle t) (is_connecting (phase_of n s.links)) (on_open n s) s
      (λ h. on_open-IsSingle n s h i) (λ h. i)
step-IsSingle (closes n) s i =
    if_intro (λ t. IsSingle t) (is_live (phase_of n s.links)) (on_close n s) s
      (λ h. on_close-IsSingle n s h i) (λ h. i)
step-IsSingle (errs n) s i =
    if_intro (λ t. IsSingle t) (is_live (phase_of n s.links)) (close n s) s
      (λ h. close-IsSingle n s i) (λ h. i)
step-IsSingle (fires t) s i =
    if_intro (λ u. IsSingle u) (has t s.pending) (fire t s) s (λ h. fire-IsSingle t s h i) (λ h. i)
step-IsSingle (receives true (some m)) s i = record { single = i.single }
step-IsSingle (receives false (some m)) s i = i
step-IsSingle (receives true none) s i = i
step-IsSingle (receives false none) s i = i
step-IsSingle unmounts s i = unmount-IsSingle s i

run-IsSingle : (es : List Event) (s : Hook) → IsSingle s → IsSingle (run es s)
unfolding run
run-IsSingle [] s i = i
run-IsSingle (e ∷ es) s i = run-IsSingle es (step e s) (step-IsSingle e s i)

-- Whatever the browser and the page do, at most one of the hook's sockets is not closed, and then no
-- timer waits; otherwise at most one timer does.
pub run-start-IsSingle : (es : List Event) → IsSingle (run es start)
unfolding start connect
run-start-IsSingle es = run-IsSingle es start (record { single = omega arith })
