-- ===== src/UseApi/Toasts/Spacing.antt =====
-- How often a toast is repeated.
mod Tests
use noant.Base.{
  ℕ, ◌+◌, ◌-◌, ◌≤◌, ltb, Text, ◌===◌, ===_iff, ===_refl, Bool, true, false, ◌&&◌, Bool-cases, List,
  [], ◌∷◌, ◌≡◌, ◌≢◌, ◌∙◌, ◌⊎◌, refl, arith, inl, inr, if◌then◌else◌,
}
use noant.UseApi.Toasts.{ToastLog, toast_dedup_ms, deduped_toast}

-- Two toasts in a row with one message are at least five seconds apart.
abbrev pub IsSpaced : List (Text × ℕ) → Type 0
IsSpaced [] = Unit
IsSpaced (p ∷ []) = Unit
IsSpaced (p ∷ q ∷ ps) = (p.0 ≡ q.0 → q.1 + toast_dedup_ms ≤ p.1) × IsSpaced (q ∷ ps)

-- The last toast is the one that is remembered.
abbrev Remembers : List (Text × ℕ) → Text → ℕ → Type 0
Remembers [] msg time = Unit
Remembers (p ∷ ps) msg time = (p.0 ≡ msg) × (p.1 ≡ time)

pub record IsValid (t : ToastLog) : Type 0 where
  pub spaced : IsSpaced t.shown
  pub remembers : Remembers t.shown t.last_toast_msg t.last_toast_time

IsSpaced-cons :
    (msg last : Text) (now time : ℕ) (shown : List (Text × ℕ))
    → (msg ≡ last → time + toast_dedup_ms ≤ now)
    → Remembers shown last time
    → IsSpaced shown
    → IsSpaced ((msg, now) ∷ shown)
IsSpaced-cons msg last now time [] gap r s = tt
IsSpaced-cons msg last now time (p ∷ ps) gap r s = (λ e. omega (arith, gap (e ∙ r.0), r.1), s)

-- A toast with the last message is shown once the time is over.
gap_of_shown :
    (msg : Text) (now : ℕ) (t : ToastLog)
    → t.last_toast_time ≤ now
    → (msg === t.last_toast_msg && ltb (now - t.last_toast_time) toast_dedup_ms) ≡ false
    → msg ≡ t.last_toast_msg
    → t.last_toast_time + toast_dedup_ms ≤ now
gap_of_shown msg now t h e same = ground (arith, ===_iff msg t.last_toast_msg)

deduped_toast-IsValid :
    (msg : Text) (now : ℕ) (t : ToastLog)
    → t.last_toast_time ≤ now
    → IsValid t
    → IsValid (deduped_toast msg now t)
unfolding deduped_toast
deduped_toast-IsValid msg now t h v =
    elim (Bool-cases (msg === t.last_toast_msg && ltb (now - t.last_toast_time) toast_dedup_ms)) [
      | inl e ↦ rw e v
      | inr e ↦ rw e (record {
        spaced =
            IsSpaced-cons msg t.last_toast_msg now t.last_toast_time t.shown
              (gap_of_shown msg now t h e) v.remembers v.spaced;
        remembers = (refl, refl);
      })
    ]

last-le :
    (msg : Text) (now : ℕ) (t : ToastLog)
    → t.last_toast_time ≤ now
    → (deduped_toast msg now t).last_toast_time ≤ now
unfolding deduped_toast
last-le msg now t h = ground arith

-- A row of calls, each with its message and its time.
unfoldable pub toasted : List (Text × ℕ) → ToastLog → ToastLog
toasted [] t = t
toasted ((msg, now) ∷ rest) t = toasted rest (deduped_toast msg now t)

-- The clock does not go back.
abbrev pub IsForward : ℕ → List (Text × ℕ) → Type 0
IsForward time [] = Unit
IsForward time ((msg, now) ∷ rest) = (time ≤ now) × IsForward now rest

IsForward-from : (a b : ℕ) (rest : List (Text × ℕ)) → a ≤ b → IsForward b rest → IsForward a rest
IsForward-from a b [] h f = tt
IsForward-from a b ((msg, now) ∷ rest) h f = (omega (arith, f.0), f.1)

-- Whatever toasts are asked for, two that are shown in a row with one message are at least five
-- seconds apart.
pub toasted-IsValid :
    (calls : List (Text × ℕ)) (t : ToastLog)
    → IsForward t.last_toast_time calls
    → IsValid t
    → IsValid (toasted calls t)
unfolding toasted
toasted-IsValid [] t f v = v
toasted-IsValid ((msg, now) ∷ rest) t f v =
    toasted-IsValid rest (deduped_toast msg now t)
      (IsForward-from _ now rest (last-le msg now t f.0) f.1)
      (deduped_toast-IsValid msg now t f.0 v)

-- A message that differs from the last one shown is always shown.
pub shown-deduped_toast :
    (msg : Text) (now : ℕ) (t : ToastLog)
    → (msg ≢ t.last_toast_msg) ⊎ (t.last_toast_time + toast_dedup_ms ≤ now)
    → (deduped_toast msg now t).shown ≡ (msg, now) ∷ t.shown
unfolding deduped_toast
shown-deduped_toast msg now t (inl ne) = ground (arith, ===_iff msg t.last_toast_msg)
shown-deduped_toast msg now t (inr late) = ground (arith, ===_iff msg t.last_toast_msg)
