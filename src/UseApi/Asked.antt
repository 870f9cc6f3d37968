-- ===== src/UseApi/Asked.antt =====
-- What an execution asks for.
use noant.Base.{
  ℕ, zero, suc, ◌+◌, ltb, Text, Bool, ◌&&◌, if_intro, none, some, List, ◌∷◌, ◌≡◌, refl, ap, ◌∙◌,
  subst,
}
use noant.UseApi.{
  LastRequest, Hook, Answer, fulfilled, api_error, other_error, ApiError, unknown_error, returned,
  threw, Run, begins, gives_up, is_retryable_error, succeeds, caught, settled, execute, max_retries,
  get_retry_delay,
}

-- `n` times the request, before the others.
abbrev pub again : ℕ → LastRequest → List LastRequest → List LastRequest
again zero r rs = rs
again (suc n) r rs = r ∷ again n r rs

again-cons :
    (n : ℕ) (r : LastRequest) (rs : List LastRequest) → again n r (r ∷ rs) ≡ again (suc n) r rs
again-cons zero r rs = refl
again-cons (suc n) r rs = ap (λ l. r ∷ l) (again-cons n r rs)

-- Behind the requests `before` only `r` is asked for, and at least once.
pub record IsAsked (r : LastRequest) (before : List LastRequest) (h : Hook) : Type 0 where
  pub more : ℕ
  pub requested : h.requested ≡ again (suc more) r before
  pub last_request : h.last_request ≡ some r

-- A run that ends has asked for `r` only, and what it returns is the last answer to `r`.
abbrev pub Asks : (LastRequest → ℕ → Answer) → LastRequest → List LastRequest → Run → Type 0
Asks answer r before none = Unit
Asks answer r before (some (returned v, h)) =
    IsAsked r before h × ((n : ℕ) × (answer r n ≡ fulfilled v) × (h.calls ≡ n + 1))
Asks answer r before (some (threw e, h)) = IsAsked r before h

module _ (answer : LastRequest → ℕ → Answer) (r : LastRequest) where
  -- A run behind a first call is one with this call.
  Asks-cons :
      (before : List LastRequest) (run : Run)
      → Asks answer r (r ∷ before) run
      → Asks answer r before run
  Asks-cons before none a = tt
  Asks-cons before (some (returned v, h)) (a, e) = (
    record {
      more = suc a.more;
      requested = a.requested ∙ again-cons (suc a.more) r before;
      last_request = a.last_request;
    },
    e,
  )
  Asks-cons before (some (threw x, h)) a = record {
    more = suc a.more;
    requested = a.requested ∙ again-cons (suc a.more) r before;
    last_request = a.last_request;
  }

  module _ (lower : Text → Text) (key : ℕ → Text) (is_load_more : Bool) where
    caught-Asks :
        (next : Hook → Run) (attempt now : ℕ) (e : ApiError) (before : List LastRequest) (h : Hook)
        → ((g : Hook) → Asks answer r g.requested (next g))
        → h.requested ≡ r ∷ before
        → h.last_request ≡ some r
        → Asks answer r before (caught lower key next attempt now e h)
    unfolding caught gives_up
    caught-Asks next attempt now e before h f q l =
        let later : Hook = record h { waits = get_retry_delay attempt ∷ h.waits } in
        if_intro (Asks answer r before) (is_retryable_error lower key e && ltb attempt max_retries)
          (next later) (some (threw e, gives_up e now h))
          (λ _.
            Asks-cons before (next later) (subst (λ rs. Asks answer r rs (next later)) q (f later)))
          (λ _. record { more = zero; requested = q; last_request = l })

    settled-Asks :
        (next : Hook → Run) (attempt now n : ℕ) (a : Answer) (before : List LastRequest) (h : Hook)
        → ((g : Hook) → Asks answer r g.requested (next g))
        → answer r n ≡ a
        → h.requested ≡ r ∷ before
        → h.last_request ≡ some r
        → h.calls ≡ n + 1
        → Asks answer r before (settled lower key next is_load_more attempt now a h)
    unfolding settled succeeds
    settled-Asks next attempt now n (fulfilled v) before h f e q l k =
        (record { more = zero; requested = q; last_request = l }, (n, e, k))
    settled-Asks next attempt now n (api_error x) before h f e q l k =
        caught-Asks next attempt now x before h f q l
    settled-Asks next attempt now n other_error before h f e q l k =
        caught-Asks next attempt now unknown_error before h f q l

    pub execute-Asks :
        (clock : ℕ → ℕ) (fuel attempt : ℕ) (h : Hook)
        → Asks answer r h.requested (execute lower key answer clock r fuel is_load_more attempt h)
    unfolding execute begins
    execute-Asks clock zero attempt h = tt
    execute-Asks clock (suc fuel) attempt h =
        settled-Asks (execute lower key answer clock r fuel is_load_more (attempt + 1)) attempt
          (clock h.calls) h.calls (answer r h.calls) h.requested _
          (λ g. execute-Asks clock fuel (attempt + 1) g) refl refl refl refl
