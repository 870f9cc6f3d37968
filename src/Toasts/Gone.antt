-- ===== src/Toasts/Gone.antt =====
-- Each toast goes.
mod Tests
use noant.Base.{
  ℕ, zero, suc, ◌+◌, ◌<◌, ◌≤◌, leb, Text, ◌===◌, Bool, true, false, not, ◌&&◌, ◌||◌, List, [], ◌∷◌,
  ◌++◌, ◌≡◌, refl, ap, ◌∙◌, arith, if_intro, subst, ===_refl, if◌then◌else◌,
}
use noant.Toasts.{
  Toast, Kind, Timer, Provider, without, toast, remove, fire, pass, Event, shows, removes, passes,
  run, no_toasts,
}

abbrev pub has_timer : Text → List Timer → Bool
has_timer id [] = false
has_timer id (t ∷ ts) = id === t.toast || has_timer id ts

-- Each toast has a timer in one of two lists.
abbrev pub covered : List Timer → List Timer → List Toast → Bool
covered l m [] = true
covered l m (t ∷ ts) = (has_timer t.id l || has_timer t.id m) && covered l m ts

-- Each timer is due by `n`.
abbrev pub due_by : ℕ → List Timer → Bool
due_by n [] = true
due_by n (t ∷ ts) = leb t.due n && due_by n ts

covered-move :
    (t : Timer) (l m : List Timer) (ts : List Toast)
    → covered (t ∷ l) m ts ≡ true
    → covered l (t ∷ m) ts ≡ true
covered-move t l m [] h = refl
covered-move t l m (u ∷ ts) h = ground (arith, covered-move t l m ts)

covered-without :
    (t : Timer) (l m : List Timer) (ts : List Toast)
    → covered (t ∷ l) m ts ≡ true
    → covered l m (without t.toast ts) ≡ true
unfolding without
covered-without t l m [] h = refl
covered-without t l m (u ∷ ts) h = ground (arith, covered-without t l m ts)

covered-append :
    (m : List Timer) (ts : List Toast) (t : Toast)
    → covered [] m ts ≡ true
    → has_timer t.id m ≡ true
    → covered [] m (ts ++ t ∷ []) ≡ true
covered-append m [] t h k = ground arith
covered-append m (u ∷ ts) t h k = ground (arith, covered-append m ts t)

covered-more :
    (t : Timer) (m : List Timer) (ts : List Toast)
    → covered [] m ts ≡ true
    → covered [] (t ∷ m) ts ≡ true
covered-more t m [] h = refl
covered-more t m (u ∷ ts) h = ground (arith, covered-more t m ts)

covered-remove :
    (id : Text) (m : List Timer) (ts : List Toast)
    → covered [] m ts ≡ true
    → covered [] m (without id ts) ≡ true
unfolding without
covered-remove id m [] h = refl
covered-remove id m (u ∷ ts) h = ground (arith, covered-remove id m ts)

due_by-later : (n d : ℕ) (ts : List Timer) → due_by n ts ≡ true → due_by (n + d) ts ≡ true
due_by-later n d [] h = refl
due_by-later n d (t ∷ ts) h = ground (arith, due_by-later n d ts)

covered-none : (ts : List Toast) → covered [] [] ts ≡ true → ts ≡ []
covered-none [] h = refl
covered-none (t ∷ ts) h = ground arith

-- Each toast has its timer, and no timer is more than four seconds ahead.
pub record IsTimed (s : Provider) : Type 0 where
  pub timed : covered [] s.timers s.toasts ≡ true
  pub soon : due_by (s.now + 4000) s.timers ≡ true

-- The same while the timers `l` are looked at.
record IsFiring (l : List Timer) (s : Provider) : Type 0 where
  timed : covered l s.timers s.toasts ≡ true
  soon : due_by (s.now + 4000) s.timers ≡ true
  left : due_by (s.now + 4000) l ≡ true

fire-IsTimed : (l : List Timer) (s : Provider) → IsFiring l s → IsTimed (fire l s)
unfolding fire remove
fire-IsTimed [] s i = record { timed = i.timed; soon = i.soon }
fire-IsTimed (t ∷ l) s i =
    if_intro (λ v. IsTimed v) (leb t.due s.now) (fire l (remove t.toast s))
      (fire l (record s { timers = t ∷ s.timers }))
      (λ e. fire-IsTimed l (remove t.toast s) (record {
        timed = covered-without t l s.timers s.toasts i.timed;
        soon = i.soon;
        left = ground arith;
      }))
      (λ e.
        fire-IsTimed l (record s { timers = t ∷ s.timers })
          (record {
            timed = covered-move t l s.timers s.toasts i.timed;
            soon = ground arith;
            left = ground arith;
          }))

covered-swap : (m : List Timer) (ts : List Toast) → covered [] m ts ≡ true → covered m [] ts ≡ true
covered-swap m [] h = refl
covered-swap m (t ∷ ts) h = ground (arith, covered-swap m ts)

due_by-add :
    (n d : ℕ) (ts : List Timer) → due_by (n + 4000) ts ≡ true → due_by (n + d + 4000) ts ≡ true
due_by-add n d [] h = refl
due_by-add n d (t ∷ ts) h = ground (arith, due_by-add n d ts)

pass-IsTimed : (d : ℕ) (s : Provider) → IsTimed s → IsTimed (pass d s)
unfolding pass
pass-IsTimed d s i =
    fire-IsTimed s.timers (record s { now = s.now + d; timers = [] })
      (record {
        timed = covered-swap s.timers s.toasts i.timed;
        soon = refl;
        left = due_by-add s.now d s.timers i.soon;
      })

toast-IsTimed :
    (id message : Text) (k : Kind) (s : Provider) → IsTimed s → IsTimed (toast id message k s)
unfolding toast
toast-IsTimed id message k s i = record {
  timed =
      covered-append (record { due = s.now + 4000; toast = id } ∷ s.timers) s.toasts
        (record { id = id; message = message; kind = k })
        (covered-more (record { due = s.now + 4000; toast = id }) s.timers s.toasts i.timed)
        (ground (arith, ===_refl id));
  soon = ground (arith, i.soon);
}

remove-IsTimed : (id : Text) (s : Provider) → IsTimed s → IsTimed (remove id s)
unfolding remove
remove-IsTimed id s i = record {
  timed = covered-remove id s.timers s.toasts i.timed;
  soon = i.soon;
}

run-IsTimed : (es : List Event) (s : Provider) → IsTimed s → IsTimed (run es s)
unfolding run
run-IsTimed [] s i = i
run-IsTimed (shows id message k ∷ es) s i =
    run-IsTimed es (toast id message k s) (toast-IsTimed id message k s i)
run-IsTimed (removes id ∷ es) s i = run-IsTimed es (remove id s) (remove-IsTimed id s i)
run-IsTimed (passes d ∷ es) s i = run-IsTimed es (pass d s) (pass-IsTimed d s i)

-- Timers that are all due are all gone.
timers-fire : (l : List Timer) (s : Provider) → due_by s.now l ≡ true → (fire l s).timers ≡ s.timers
unfolding fire remove
timers-fire [] s h = refl
timers-fire (t ∷ l) s h =
    if_intro (λ v. v.timers ≡ s.timers) (leb t.due s.now) (fire l (remove t.toast s))
      (fire l (record s { timers = t ∷ s.timers }))
      (λ e. timers-fire l (remove t.toast s) (ground arith)) (λ e. ground arith)

due_by_mono : (n k : ℕ) (ts : List Timer) → n ≤ k → due_by n ts ≡ true → due_by k ts ≡ true
due_by_mono n k [] l h = refl
due_by_mono n k (t ∷ ts) l h = ground (arith, due_by_mono n k ts)

timers-pass : (d : ℕ) (s : Provider) → 4000 ≤ d → IsTimed s → (pass d s).timers ≡ []
unfolding pass
timers-pass d s l i =
    timers-fire s.timers (record s { now = s.now + d; timers = [] })
      (due_by_mono (s.now + 4000) (s.now + d) s.timers (omega arith) i.soon)

-- Whatever toasts were shown and removed, also with the same id, none is left when four seconds have
-- gone by.
pub toasts-pass-run : (es : List Event) (d : ℕ) → 4000 ≤ d → (pass d (run es no_toasts)).toasts ≡ []
toasts-pass-run es d l =
    let s = run es no_toasts in
    let i = run-IsTimed es no_toasts (record { timed = refl; soon = refl }) in
    covered-none _ (
      subst (λ m. covered [] m ((pass d s).toasts) ≡ true) (timers-pass d s l i)
        (pass-IsTimed d s i).timed)
