-- ===== src/Users/Latest.antt =====
-- Which answer the list shows.
mod Tests
use noant.Base.{
  ℕ, zero, suc, ◌+◌, ◌≤◌, ◌==◌, ==_iff, Text, codes, get_elem?, All, Bool, true, false, Option,
  none, some, List, [], ◌∷◌, if◌then◌else◌, ◌≡◌, refl, sym, ap, ◌∙◌, subst, arith, if_intro,
  Option-cases, inl, inr,
}
use noant.Users.{
  Ask, Listing, Users, run_effect, search_for, refetch, fired, fire, landed, remove_at, taken,
  answered,
}

pub data Event : Type 0 where
  searches : (search plan : Text) → Event
  refetches fires : Event
  answers : ℕ → Event

-- The users of an answer.
abbrev pub users_of : Option Listing → List Text
users_of none = []
users_of (some r) = r.users

abbrev pub total_of : Option Listing → ℕ
total_of none = 0
total_of (some r) = r.total

-- A call of no later run than `n`; one of the run `n` has these arguments.
pub record IsOf (n : ℕ) (search plan : Text) (a : Ask) : Type 0 where
  pub past : a.generation ≤ n
  pub search_same : a.generation ≡ n → a.search ≡ search
  pub plan_same : a.generation ≡ n → a.plan ≡ plan

abbrev pub OfTimer : ℕ → Text → Text → Option Ask → Type 0
OfTimer n search plan none = Unit
OfTimer n search plan (some a) = IsOf n search plan a

module _ (serve : Text → Text → Option Listing) where
  pub step : Event → Users → Users
  step (searches search plan) s = search_for search plan s
  step refetches s = refetch s
  step fires s = fire s
  step (answers n) s = answered serve n s

  pub run : List Event → Users → Users
  unfolding step
  run [] s = s
  run (e ∷ es) s = run es (step e s)

  -- What is shown when nothing loads is the answer for the search and the plan of now.
  pub record IsLatest (s : Users) : Type 0 where
    pub timed : OfTimer s.generation s.search s.plan s.timer
    pub calls : All (IsOf s.generation s.search s.plan) s.asked
    pub users_shown : s.loading ≡ false → s.users ≡ users_of (serve s.search s.plan)
    pub total_shown : s.loading ≡ false → s.total ≡ total_of (serve s.search s.plan)

  older :
      (n : ℕ) (search plan t p : Text) (asks : List Ask)
      → All (IsOf n search plan) asks
      → All (IsOf (n + 1) t p) asks
  older n search plan t p [] h = tt
  older n search plan t p (a ∷ asks) h = (
    record {
      past = omega (arith, h.0.past);
      search_same = λ e. ground (arith, h.0.past);
      plan_same = λ e. ground (arith, h.0.past);
    },
    older n search plan t p asks h.1,
  )

  run_effect-IsLatest :
      (search plan : Text) (s : Users)
      → IsLatest s
      → IsLatest (run_effect (record s { search = search; plan = plan }))
  unfolding run_effect
  run_effect-IsLatest search plan s i = record {
    timed = record { past = omega arith; search_same = λ e. refl; plan_same = λ e. refl };
    calls = older s.generation s.search s.plan search plan s.asked i.calls;
    users_shown = λ e. ground arith;
    total_shown = λ e. ground arith;
  }

  fired-IsLatest :
      (t : Option Ask) (s : Users)
      → OfTimer s.generation s.search s.plan t
      → IsLatest s
      → IsLatest (fired t s)
  fired-IsLatest none s h i = i
  fired-IsLatest (some a) s h i = record {
    timed = tt;
    calls = (h, i.calls);
    users_shown = i.users_shown;
    total_shown = i.total_shown;
  }

  All-remove_at :
      (P : Ask → Type 0) (n : ℕ) (asks : List Ask) → All P asks → All P (remove_at n asks)
  All-remove_at P n [] h = h
  All-remove_at P zero (a ∷ asks) h = h.1
  All-remove_at P (suc n) (a ∷ asks) h = (h.0, All-remove_at P n asks h.1)

  All-get_elem? :
      (P : Ask → Type 0) (n : ℕ) (asks : List Ask) (a : Ask)
      → All P asks
      → get_elem? asks n ≡ some a
      → P a
  All-get_elem? P n [] a h e = ground arith
  All-get_elem? P zero (b ∷ asks) a h e = let same : b ≡ a = cc in subst P same h.0
  All-get_elem? P (suc n) (b ∷ asks) a h e = All-get_elem? P n asks a h.1 e

  landed-IsLatest :
      (o : Option Listing) (s : Users)
      → serve s.search s.plan ≡ o
      → IsLatest s
      → IsLatest (landed o s)
  unfolding landed
  landed-IsLatest none s e i = record {
    timed = i.timed;
    calls = i.calls;
    users_shown = λ l. ap users_of (sym e);
    total_shown = λ l. ap total_of (sym e);
  }
  landed-IsLatest (some r) s e i = record {
    timed = i.timed;
    calls = i.calls;
    users_shown = λ l. ap users_of (sym e);
    total_shown = λ l. ap total_of (sym e);
  }

  taken-IsLatest :
      (o : Option Ask) (s : Users)
      → OfTimer s.generation s.search s.plan o
      → IsLatest s
      → IsLatest (taken serve o s)
  taken-IsLatest none s h i = i
  taken-IsLatest (some a) s h i =
      if_intro IsLatest (a.generation == s.generation) (landed (serve a.search a.plan) s) s
        (λ e.
          let now : a.generation ≡ s.generation = (==_iff a.generation s.generation).0 e in
          landed-IsLatest (serve a.search a.plan) s
            (sym (
              ap (λ t. serve t a.plan) (h.search_same now)
              ∙ ap (λ p. serve s.search p) (h.plan_same now)))
            i)
        (λ e. i)

  answered-IsLatest : (n : ℕ) (s : Users) → IsLatest s → IsLatest (answered serve n s)
  unfolding answered
  answered-IsLatest n s i =
      let left : Users = record s { asked = remove_at n s.asked } in
      let kept : IsLatest left = record {
        timed = i.timed;
        calls = All-remove_at (IsOf s.generation s.search s.plan) n s.asked i.calls;
        users_shown = i.users_shown;
        total_shown = i.total_shown;
      } in
      elim (Option-cases (get_elem? s.asked n)) [
        | inl e ↦ subst (λ o. IsLatest (taken serve o left)) (sym e) kept
        | inr (a, e) ↦
            subst (λ o. IsLatest (taken serve o left)) (sym e)
              (taken-IsLatest (some a) left
                (All-get_elem? (IsOf s.generation s.search s.plan) n s.asked a i.calls e) kept)
      ]

  step-IsLatest : (e : Event) (s : Users) → IsLatest s → IsLatest (step e s)
  unfolding step search_for refetch fire
  step-IsLatest (searches search plan) s i = run_effect-IsLatest search plan s i
  step-IsLatest refetches s i = run_effect-IsLatest s.search s.plan s i
  step-IsLatest fires s i = fired-IsLatest s.timer s i.timed i
  step-IsLatest (answers n) s i = answered-IsLatest n s i

  runs : (es : List Event) (s : Users) → IsLatest s → IsLatest (run es s)
  unfolding run
  runs [] s i = i
  runs (e ∷ es) s i = runs es (step e s) (step-IsLatest e s i)

  -- However the search changes, and in whatever order the calls are answered: when nothing loads, the
  -- users and the total are the answer for the search and the plan of now, and none where that call
  -- failed. At first no call is made and something loads.
  pub run-IsLatest :
      (es : List Event) (s : Users)
      → s.timer ≡ none
      → s.asked ≡ []
      → s.loading ≡ true
      → IsLatest (run es s)
  run-IsLatest es s t a l = runs es s (record {
    timed = subst (OfTimer s.generation s.search s.plan) (sym t) tt;
    calls = subst (All (IsOf s.generation s.search s.plan)) (sym a) tt;
    users_shown = λ e. ground arith;
    total_shown = λ e. ground arith;
  })
