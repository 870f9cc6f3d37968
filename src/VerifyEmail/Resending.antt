-- ===== src/VerifyEmail/Resending.antt =====
-- How often a code is sent again.
mod Tests
use noant.Base.{
  ℕ, zero, suc, ◌+◌, ◌-◌, ◌*◌, ◌≤◌, ltb, Text, ◌===◌, Bool, true, false, not, ◌&&◌, ◌||◌, Option,
  none, some, List, [], ◌∷◌, ◌≡◌, refl, sym, subst, ◌∙◌, arith, if_intro, if◌then◌else◌,
}
use noant.VerifyEmail.{
  Page, handle_verify, set_code, handle_change, handle_paste, verify_answered, handle_resend,
  resend_answered, tick, press_verify, mounted, Event, types, pastes, presses, resends, verify_got,
  resend_got, ticks, step, run,
}

-- The codes that were sent again and the seconds that went by, along a run.
abbrev pub flag : Bool → ℕ
flag true = 1
flag false = 0

abbrev pub sent_again : List Event → Page → ℕ
sent_again [] s = 0
sent_again (resend_got none ∷ es) s = flag s.resending + sent_again es (step (resend_got none) s)
sent_again (e ∷ es) s = sent_again es (step e s)

abbrev pub seconds : List Event → ℕ
seconds [] = 0
seconds (ticks ∷ es) = seconds es + 1
seconds (e ∷ es) = seconds es

-- After `n` codes more and `t` seconds.
record IsCooled (n t : ℕ) (s : Page) : Type 0 where
  waited : 60 * (n + 1) ≤ t + s.cooldown
  ready : s.resending ≡ true → s.cooldown ≡ 0
  short : s.cooldown ≤ 60

-- What does not change the two fields.
keeps :
    (n t : ℕ) (s u : Page)
    → u.cooldown ≡ s.cooldown
    → u.resending ≡ s.resending
    → IsCooled n t s
    → IsCooled n t u
keeps n t s u a b i = record {
  waited = omega (arith, i.waited, a);
  ready = λ h. a ∙ i.ready (sym b ∙ h);
  short = omega (arith, i.short, a);
}

handle_verify_lem :
    (s : Page)
    → ((handle_verify s).cooldown ≡ s.cooldown) × ((handle_verify s).resending ≡ s.resending)
unfolding handle_verify
handle_verify_lem s = ground arith

set_code_lem :
    (c : List Text) (s : Page)
    → ((set_code c s).cooldown ≡ s.cooldown) × ((set_code c s).resending ≡ s.resending)
unfolding set_code
set_code_lem c s = ground (arith, handle_verify_lem (record s { code = c }))

-- A step that neither waits nor sends a code again.
abbrev is_other : Event → Bool
is_other (resends email) = false
is_other (resend_got a) = false
is_other ticks = false
is_other _ = true

step_lem :
    (e : Event) (s : Page)
    → is_other e ≡ true
    → ((step e s).cooldown ≡ s.cooldown) × ((step e s).resending ≡ s.resending)
unfolding step handle_change handle_paste press_verify verify_answered
step_lem (types i v) s h = ground (arith, set_code_lem _ s)
step_lem (pastes t) s h = ground (arith, set_code_lem _ s)
step_lem presses s h = ground (arith, handle_verify_lem s)
step_lem (verify_got none) s h = ground arith
step_lem (verify_got (some m)) s h = ground arith
step_lem (resends email) s h = ground arith
step_lem (resend_got a) s h = ground arith
step_lem ticks s h = ground arith

other-IsCooled :
    (n t : ℕ) (e : Event) (s : Page) → is_other e ≡ true → IsCooled n t s → IsCooled n t (step e s)
other-IsCooled n t e s h i = let (a, b) = step_lem e s h in keeps n t s (step e s) a b i

resends-IsCooled :
    (n t : ℕ) (m : Text) (s : Page) → IsCooled n t s → IsCooled n t (step (resends m) s)
unfolding step handle_resend
resends-IsCooled n t m s i = ground arith

failed-IsCooled :
    (n t : ℕ) (m : Text) (s : Page) → IsCooled n t s → IsCooled n t (step (resend_got (some m)) s)
unfolding step resend_answered
failed-IsCooled n t m s i = ground arith

sent-IsCooled :
    (n t : ℕ) (s : Page)
    → IsCooled n t s
    → IsCooled (n + flag s.resending) t (step (resend_got none) s)
unfolding step resend_answered
sent-IsCooled n t s i = ground arith

ticks-IsCooled : (n t : ℕ) (s : Page) → IsCooled n t s → IsCooled n (t + 1) (step ticks s)
unfolding step tick
ticks-IsCooled n t s i = ground arith

-- The counts at the end of a run.
abbrev Ends : ℕ → ℕ → List Event → Page → Type 0
Ends n t es s = IsCooled (n + sent_again es s) (t + seconds es) (run es s)

moved : (n n' t t' : ℕ) (s : Page) → n ≡ n' → t ≡ t' → IsCooled n t s → IsCooled n' t' s
moved n n' t t' s a b i = subst (λ m. IsCooled m t' s) a (subst (λ u. IsCooled n u s) b i)

run-IsCooled : (n t : ℕ) (es : List Event) (s : Page) → IsCooled n t s → Ends n t es s
unfolding run
run-IsCooled n t [] s i = moved n (n + 0) t (t + 0) s (omega arith) (omega arith) i
run-IsCooled n t (types k v ∷ es) s i =
    run-IsCooled n t es (step (types k v) s) (other-IsCooled n t (types k v) s refl i)
run-IsCooled n t (pastes v ∷ es) s i =
    run-IsCooled n t es (step (pastes v) s) (other-IsCooled n t (pastes v) s refl i)
run-IsCooled n t (presses ∷ es) s i =
    run-IsCooled n t es (step presses s) (other-IsCooled n t presses s refl i)
run-IsCooled n t (verify_got a ∷ es) s i =
    run-IsCooled n t es (step (verify_got a) s) (other-IsCooled n t (verify_got a) s refl i)
run-IsCooled n t (resends m ∷ es) s i =
    run-IsCooled n t es (step (resends m) s) (resends-IsCooled n t m s i)
run-IsCooled n t (resend_got (some m) ∷ es) s i =
    run-IsCooled n t es (step (resend_got (some m)) s) (failed-IsCooled n t m s i)
run-IsCooled n t (resend_got none ∷ es) s i =
    let u = step (resend_got none) s in
    moved (n + flag s.resending + sent_again es u) (n + (flag s.resending + sent_again es u))
      (t + seconds es) (t + seconds es) (run es u) (omega arith) refl
      (run-IsCooled (n + flag s.resending) t es u (sent-IsCooled n t s i))
run-IsCooled n t (ticks ∷ es) s i =
    let u = step ticks s in
    moved (n + sent_again es u) (n + sent_again es u) (t + 1 + seconds es) (t + (seconds es + 1))
      (run es u) refl (omega arith) (run-IsCooled n (t + 1) es u (ticks-IsCooled n t s i))

-- Each code that is sent again has its sixty seconds: after any use of the page, the codes that were
-- sent again successfully take sixty seconds each of the time that has gone by.
pub seconds-run-mounted : (es : List Event) → 60 * sent_again es mounted ≤ seconds es
unfolding mounted
seconds-run-mounted es =
    let i =
      run-IsCooled 0 0 es mounted
        (record { waited = omega arith; ready = λ h. ground (arith, h); short = omega arith }) in
    omega (arith, i.waited, i.short)
