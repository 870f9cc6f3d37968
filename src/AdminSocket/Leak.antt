-- ===== src/AdminSocket/Leak.antt =====
-- The hook after its page has been left.
mod Tests
use noant.Base.{
  ℕ, zero, suc, ◌+◌, ◌==◌, Bool, true, false, not, ◌&&◌, ◌||◌, Option, none, some, List, [], ◌∷◌,
  ◌≡◌, refl, arith, if_intro, ==_refl, ap, sym, subst, ◌∙◌, if◌then◌else◌,
}
use noant.AdminSocket.{
  Phase, connecting, ready, closing, closed, Link, Hook, phase_of, is_live, is_open, has,
  ref_is_open, set_phase, without, connect, clear_timeout, close, on_close, fire, unmount, Event,
  closes, fires, step, run,
}

-- The socket `k`, the last one, is closed, and the timer of that fires.
pub round : Hook → Hook
unfolding step
round s = elim s.ws_ref [ none ↦ s | some k ↦ step (fires s.timers) (step (closes k) s) ]

pub rounds : ℕ → Hook → Hook
unfolding round
rounds zero s = s
rounds (suc n) s = rounds n (round s)

-- The last socket is not closed.
pub record IsLive (s : Hook) : Type 0 where
  pub number : ℕ
  pub last : s.ws_ref ≡ some number
  pub alive : is_live (phase_of number s.links) ≡ true

phase_of-set_phase :
    (n : ℕ) (p : Phase) (ls : List Link)
    → is_live (phase_of n ls) ≡ true
    → phase_of n (set_phase n p ls) ≡ p
unfolding set_phase
phase_of-set_phase n p [] h = ground arith
phase_of-set_phase n p (l ∷ ls) h = ground (arith, phase_of-set_phase n p ls)

ref_is_open_of_closed :
    (s : Hook) (k : ℕ) → s.ws_ref ≡ some k → phase_of k s.links ≡ closed → ref_is_open s ≡ false
ref_is_open_of_closed s k h p = ground arith

-- The state between the two halves of a round.
connect-IsLive :
    (s : Hook) (k : ℕ)
    → s.ws_ref ≡ some k
    → phase_of k s.links ≡ closed
    → IsLive (connect s) × ((connect s).made ≡ s.made + 1)
unfolding connect
connect-IsLive s k h p =
    if_intro (λ t. IsLive t × (t.made ≡ s.made + 1)) (ref_is_open s) s
      (record s {
        ws_ref = some s.made;
        links = record { number = s.made; phase = connecting } ∷ s.links;
        made = s.made + 1;
      })
      (λ e. ground (arith, ref_is_open_of_closed s k h p, e))
      (λ e. (record { number = s.made; last = refl; alive = ground (arith, ==_refl s.made) }, refl))

fires_lem :
    (s : Hook) (k t : ℕ)
    → s.ws_ref ≡ some k
    → phase_of k s.links ≡ closed
    → has t s.pending ≡ true
    → IsLive (step (fires t) s) × ((step (fires t) s).made ≡ s.made + 1)
unfolding step fire
fires_lem s k t h p w =
    if_intro (λ u. IsLive u × (u.made ≡ s.made + 1)) (has t s.pending)
      (connect (record s { pending = without t s.pending })) s
      (λ e. connect-IsLive (record s { pending = without t s.pending }) k h p)
      (λ e. ground (arith, w, e))

round_lem :
    (s : Hook) (k : ℕ)
    → s.ws_ref ≡ some k
    → is_live (phase_of k s.links) ≡ true
    → let t = step (closes k) s in
      (t.ws_ref ≡ some k)
      × (phase_of k t.links ≡ closed)
      × (has s.timers t.pending ≡ true)
      × (t.made ≡ s.made)
unfolding step on_close
round_lem s k h l = ground (arith, phase_of-set_phase k closed s.links, ==_refl s.timers)

round-eq :
    (s : Hook) (k : ℕ) → s.ws_ref ≡ some k → round s ≡ step (fires s.timers) (step (closes k) s)
unfolding round
round-eq s k h =
    ap
      (λ o.
        let t : Hook = elim o [ none ↦ s | some k ↦ step (fires s.timers) (step (closes k) s) ] in
        t)
      h

round-IsLive : (s : Hook) → IsLive s → IsLive (round s) × ((round s).made ≡ s.made + 1)
round-IsLive s i =
    let k = i.number in
    let (r, p, w, m) = round_lem s k i.last i.alive in
    let u = step (closes k) s in
    subst (λ v. IsLive v × (v.made ≡ s.made + 1)) (sym (round-eq s k i.last))
      (subst (λ n. IsLive (step (fires s.timers) u) × ((step (fires s.timers) u).made ≡ n + 1)) m
        (fires_lem u k s.timers r p w))

rounds_lem : (n : ℕ) (s : Hook) → IsLive s → (rounds n s).made ≡ s.made + n
unfolding rounds
rounds_lem zero s i = omega arith
rounds_lem (suc n) s i = let (j, e) = round-IsLive s i in omega (arith, rounds_lem n (round s) j, e)

clear_timeout_lem :
    (s : Hook)
    → ((clear_timeout s).ws_ref ≡ s.ws_ref)
      × ((clear_timeout s).links ≡ s.links)
      × ((clear_timeout s).made ≡ s.made)
unfolding clear_timeout
clear_timeout_lem s = ground arith

close_lem :
    (s : Hook) (k : ℕ)
    → is_live (phase_of k s.links) ≡ true
    → ((close k s).ws_ref ≡ s.ws_ref)
      × (is_live (phase_of k (close k s).links) ≡ true)
      × ((close k s).made ≡ s.made)
unfolding close
close_lem s k l = ground (arith, phase_of-set_phase k closing s.links)

unmount-eq : (s : Hook) (k : ℕ) → s.ws_ref ≡ some k → unmount s ≡ close k (clear_timeout s)
unfolding unmount
unmount-eq s k h = ground (arith, clear_timeout_lem s)

unmount_lem :
    (s : Hook) (k : ℕ)
    → s.ws_ref ≡ some k
    → is_live (phase_of k s.links) ≡ true
    → IsLive (unmount s) × ((unmount s).made ≡ s.made)
unmount_lem s k h l =
    let (a, b, c) = clear_timeout_lem s in
    let (x, y, z) = close_lem (clear_timeout s) k (ground (arith, b, l)) in
    subst (λ t. IsLive t × (t.made ≡ s.made)) (sym (unmount-eq s k h))
      (record { number = k; last = x ∙ a ∙ h; alive = y }, z ∙ c)

-- When the page is left while its socket is not closed, the cleanup clears no timer that matters:
-- the close that follows sets one, and in each round of a timer and a close one socket more is made,
-- without end.
pub made-rounds-unmount :
    (n : ℕ) (s : Hook) (k : ℕ)
    → s.ws_ref ≡ some k
    → is_live (phase_of k s.links) ≡ true
    → (rounds n (unmount s)).made ≡ s.made + n
made-rounds-unmount n s k h l =
    let (i, e) = unmount_lem s k h l in omega (arith, rounds_lem n (unmount s) i, e)
