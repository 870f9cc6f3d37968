-- ===== src/Api/Refresh/Sharing.antt =====
-- Who shares a refresh, and who does not.
mod Tests
use noant.Base.{
  ℕ, ◌+◌, ◌<◌, ◌==◌, ==_iff, ==_refl, Bool, true, false, Option, none, some, List, [], ◌∷◌, ◌≡◌,
  ◌≢◌, refl, ap, ◌∙◌, arith, if◌then◌else◌,
}
use noant.Api.Refresh.{
  Phase, pending, importing, waiting, retried, expired, Module, update, enter, unauthorized,
  unauthorized_at, imported, resumed, resumed_at, gives,
}

-- A turn of the event loop in which the import takes no time, and one that ends a wait.
pub data Turn : Type 0 where
  arrives resumes : ℕ → Turn

pub turn : (ℕ → Bool) → Turn → Module → Module
turn outcome (arrives i) m = imported i (unauthorized i m)
turn outcome (resumes i) m = resumed outcome i m

pub turns : (ℕ → Bool) → List Turn → Module → Module
unfolding turn
turns outcome [] m = m
turns outcome (t ∷ ts) m = turns outcome ts (turn outcome t m)

-- One of the first `n` refreshes.
abbrev pub IsStarted : ℕ → Option ℕ → Type 0
IsStarted n none = ⊥
IsStarted n (some p) = p < n

-- The last of the first `n` refreshes.
abbrev pub IsNewest : ℕ → Option ℕ → Type 0
IsNewest n none = ⊥
IsNewest n (some p) = p + 1 ≡ n

-- A request waits for one of the `n` refreshes that were started, and its end is that refresh's.
abbrev pub IsFair : ℕ → (ℕ → Bool) → Phase → Type 0
IsFair n outcome pending = Unit
IsFair n outcome importing = ⊥
IsFair n outcome (waiting p) = IsStarted n p
IsFair n outcome (retried p) = IsStarted n p × (gives outcome p ≡ true)
IsFair n outcome (expired p) = IsStarted n p × (gives outcome p ≡ false)

-- While one is refreshing, there is a promise, that of the last refresh.
pub record IsShared (outcome : ℕ → Bool) (m : Module) : Type 0 where
  pub promised : m.is_refreshing ≡ true → IsNewest m.refreshes m.refresh_promise
  pub fair : (i : ℕ) → IsFair m.refreshes outcome (m.phase i)

update_self : (f : ℕ → Phase) (i : ℕ) (p : Phase) → update f i p i ≡ p
update_self f i p = rw ==_refl

abbrev joined : ℕ → Module → Module
joined i m = record m { phase = update m.phase i (waiting m.refresh_promise) }

abbrev started : ℕ → Module → Module
started i m = record m { is_refreshing = true; phase = update m.phase i importing }

enter-eq : (i : ℕ) (m : Module) → enter i m ≡ (if m.is_refreshing then joined i m else started i m)
unfolding enter
enter-eq i m = refl

enter_busy : (i : ℕ) (m : Module) → m.is_refreshing ≡ true → enter i m ≡ joined i m
enter_busy i m e = enter-eq i m ∙ ap (λ b. if b then joined i m else started i m) e

enter_idle : (i : ℕ) (m : Module) → m.is_refreshing ≡ false → enter i m ≡ started i m
enter_idle i m e = enter-eq i m ∙ ap (λ b. if b then joined i m else started i m) e

unauthorized_pending : (i : ℕ) (m : Module) → m.phase i ≡ pending → unauthorized i m ≡ enter i m
unfolding unauthorized unauthorized_at
unauthorized_pending i m e = ap (λ p. unauthorized_at p i m) e

-- A 401 of a request makes it wait for the last refresh, which it starts if there is none.
abbrev pub Joins : ℕ → Module → Type 0
Joins i n = (n.phase i ≡ waiting n.refresh_promise) × IsNewest n.refreshes n.refresh_promise

pending_after :
    (i j : ℕ) (m : Module) → m.phase j ≡ pending → i ≢ j → (started i m).phase j ≡ pending
pending_after i j m e ne = let d : (i == j) ≡ false = ground arith in rw d e

phase-resumed-joined :
    (outcome : ℕ → Bool) (j : ℕ) (m : Module)
    → m.refresh_promise ≡ none
    → (resumed outcome j (joined j m)).phase j ≡ expired none
unfolding resumed
phase-resumed-joined outcome j m n =
    rw (update_self m.phase j (waiting m.refresh_promise), resumed_at, update_self)
      (ap (λ p. if gives outcome p then retried p else expired p) n)

-- A 401 that arrives while another request waits for its import reads a promise that is not there
-- yet: that request's session is ended, whatever becomes of the refresh.
pub phase-resumed-unauthorized :
    (outcome : ℕ → Bool) (i j : ℕ) (m : Module)
    → m.phase j ≡ pending
    → m.phase i ≡ pending
    → m.is_refreshing ≡ false
    → m.refresh_promise ≡ none
    → i ≢ j
    → (resumed outcome j (unauthorized j (unauthorized i m))).phase j ≡ expired none
phase-resumed-unauthorized outcome i j m pj pi r n ne =
    rw
      (
        unauthorized_pending i m pi,
        enter_idle i m r,
        unauthorized_pending j (started i m) (pending_after i j m pj ne),
        enter_busy j (started i m) refl,
      )
      (phase-resumed-joined outcome j (started i m) n)
