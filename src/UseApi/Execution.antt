-- ===== src/UseApi/Execution.antt =====
-- Every execution ends, and what it leaves in the hook.
mod Tests
use noant.Base.{
  ℕ, zero, suc, ◌+◌, ◌-◌, ◌≤◌, ltb, Text, Bool, true, false, ◌&&◌, Bool-cases, Option, none, some,
  ◌≡◌, refl, subst, arith, inl, inr, ◌∷◌, if◌then◌else◌,
}
use noant.Json.{Value}
use noant.UseApi.{
  LastRequest, Hook, Answer, fulfilled, api_error, other_error, ApiError, unknown_error, Outcome,
  returned, threw, Run, begins, gives_up, is_retryable_error, received, succeeds, caught, settled,
  execute, max_retries, get_retry_delay,
}

module _ (lower : Text → Text) (key : ℕ → Text) (is_load_more : Bool) where
  -- The run ends, `n` calls after the `k`-th at the latest, with nothing loading. A value that is
  -- returned is in the hook, merged into what was there if it is a further page; after an error
  -- the hook has that error and what was there.
  abbrev pub Ended : (n k : ℕ) (before : Option Value) → Run → Type 0
  Ended n k before none = ⊥
  Ended n k before (some (returned v, h)) =
      (h.loading ≡ false)
      × (h.loading_more ≡ false)
      × (h.error ≡ none)
      × (h.payload ≡ some (received lower key is_load_more before v))
      × (k ≤ h.calls)
      × (h.calls ≤ k + n)
  Ended n k before (some (threw e, h)) =
      (h.loading ≡ false)
      × (h.loading_more ≡ false)
      × (h.error ≡ some e)
      × (h.payload ≡ before)
      × (k ≤ h.calls)
      × (h.calls ≤ k + n)

  if-Ended :
      (b : Bool) (n k : ℕ) (before : Option Value) (x y : Run)
      → (b ≡ true → Ended n k before x)
      → Ended n k before y
      → Ended n k before (if b then x else y)
  if-Ended true n k before x y v w = v refl
  if-Ended false n k before x y v w = w

  -- What the recursive call gives.
  abbrev Next : (attempt n : ℕ) → Hook → (Hook → Run) → Type 0
  Next attempt n h again =
      (g : Hook)
      → g.calls ≡ h.calls
      → g.payload ≡ h.payload
      → ltb attempt max_retries ≡ true
      → Ended n h.calls h.payload (again g)

  caught-Ended :
      (again : Hook → Run) (attempt now n : ℕ) (e : ApiError) (h : Hook)
      → Next attempt n h again
      → Ended n h.calls h.payload (caught lower key again attempt now e h)
  unfolding caught gives_up
  caught-Ended again attempt now n e h next =
      let later = record h { waits = get_retry_delay attempt ∷ h.waits } in
      if-Ended (is_retryable_error lower key e && ltb attempt max_retries) n h.calls h.payload
        (again later) (some (threw e, gives_up e now h)) (λ b. next later refl refl (ground arith))
        (refl, refl, refl, refl, omega arith, omega arith)

  settled-Ended :
      (again : Hook → Run) (attempt now n : ℕ) (a : Answer) (h : Hook)
      → Next attempt n h again
      → Ended n h.calls h.payload (settled lower key again is_load_more attempt now a h)
  unfolding settled succeeds
  settled-Ended again attempt now n (fulfilled v) h next =
      (refl, refl, refl, refl, omega arith, omega arith)
  settled-Ended again attempt now n (api_error e) h next = caught-Ended again attempt now n e h next
  settled-Ended again attempt now n other_error h next =
      caught-Ended again attempt now n unknown_error h next

  Ended-later :
      (n k : ℕ) (before : Option Value) (r : Run)
      → Ended n (k + 1) before r
      → Ended (n + 1) k before r
  Ended-later n k before none x = elim x [ ]
  Ended-later n k before (some (returned v, h)) (a, b, c, d, e, f) =
      (a, b, c, d, omega arith, omega arith)
  Ended-later n k before (some (threw e, h)) (a, b, c, d, i, f) =
      (a, b, c, d, omega arith, omega arith)

  Ended-cast :
      (n k j : ℕ) (p q : Option Value) (r : Run) → k ≡ j → p ≡ q → Ended n k p r → Ended n j q r
  Ended-cast n k j p q r e f h = subst (λ x. Ended n j x r) f (subst (λ x. Ended n x p r) e h)

  module _ (answer : LastRequest → ℕ → Answer) (clock : ℕ → ℕ) (r : LastRequest) where
    abbrev From : (fuel attempt : ℕ) → Hook → Run
    From fuel attempt h = execute lower key answer clock r fuel is_load_more attempt h

    next-attempt :
        (fuel n attempt calls : ℕ) (before : Option Value) (g : Hook)
        → ((m : ℕ)
            → attempt + 1 + m ≡ 3
            → Ended (m + 1) g.calls g.payload (From fuel (attempt + 1) g))
        → attempt + n ≡ 3
        → g.calls ≡ calls
        → g.payload ≡ before
        → ltb attempt max_retries ≡ true
        → Ended n calls before (From fuel (attempt + 1) g)
    next-attempt fuel zero attempt calls before g rest e c p t = ground arith
    next-attempt fuel (suc m) attempt calls before g rest e c p t =
        subst (λ j. Ended j calls before (From fuel (attempt + 1) g)) (the-eq m)
          (Ended-cast (m + 1) g.calls calls g.payload before _ c p (rest m (omega arith)))
      where
        the-eq : (m : ℕ) → m + 1 ≡ suc m
        the-eq m = omega arith

    attempt-Ended :
        (fuel n attempt : ℕ) (h : Hook)
        → attempt + n ≡ 3
        → n + 1 ≤ fuel
        → Ended (n + 1) h.calls h.payload (From fuel attempt h)
    unfolding execute begins
    attempt-Ended zero n attempt h e l = omega arith
    attempt-Ended (suc fuel) n attempt h e l = Ended-later n h.calls h.payload _ (
        settled-Ended (From fuel (attempt + 1)) attempt (clock h.calls) n (answer r h.calls)
          (record (begins r is_load_more h) { calls = h.calls + 1; requested = r ∷ h.requested })
          (λ g c p t.
            next-attempt fuel n attempt (h.calls + 1) h.payload g
              (λ m f. attempt-Ended fuel m (attempt + 1) g f (omega arith)) e c p t))

    -- With a fuel of 4 or more the execution ends, after at most 4 calls of the API, with nothing
    -- loading. A value that is returned is in the hook, merged into what was there if it is a
    -- further page that is loaded; an error that is thrown is in the hook beside what was there.
    pub execute-Ended :
        (fuel : ℕ) (h : Hook)
        → 4 ≤ fuel
        → Ended 4 h.calls h.payload (execute lower key answer clock r fuel is_load_more 0 h)
    execute-Ended fuel h l = attempt-Ended fuel 3 0 h refl l
