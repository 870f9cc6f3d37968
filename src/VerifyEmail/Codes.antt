-- ===== src/VerifyEmail/Codes.antt =====
-- The codes that are sent.
mod Tests
use noant.Base.{
  ℕ, zero, suc, ◌+◌, ◌≤◌, ◌==◌, ltb, leb, Text, ◌===◌, length, length-append, Bool, true, false,
  not, ◌&&◌, ◌||◌, Option, none, some, List, [], ◌∷◌, ◌++◌, ◌≡◌, refl, sym, subst, ◌∙◌, arith,
  ==_iff, if_intro, if◌then◌else◌,
}
use noant.VerifyEmail.{
  Effect, posts_verify, posts_resend, toast_success, toast_error, Page, is_digit, digits, last,
  set_at, take, split, join, all_filled, empty_code, handle_verify, set_code, handle_change,
  handle_paste, verify_answered, handle_resend, resend_answered, tick, press_verify, mounted, Event,
  types, pastes, presses, resends, verify_got, resend_got, ticks, step, run,
}

abbrev pub all_digits : Text → Bool
all_digits [] = true
all_digits (c ∷ cs) = is_digit c && all_digits cs

-- A box is empty or has one digit.
abbrev pub is_box : Text → Bool
is_box [] = true
is_box (c ∷ []) = is_digit c
is_box (c ∷ d ∷ cs) = false

abbrev pub all_boxes : List Text → Bool
all_boxes [] = true
all_boxes (t ∷ ts) = is_box t && all_boxes ts

abbrev pub is_code : Text → Bool
is_code t = length t == 6 && all_digits t

-- Each code that was sent is one of six digits.
abbrev pub all_codes : List Effect → Bool
all_codes [] = true
all_codes (posts_verify t ∷ es) = is_code t && all_codes es
all_codes (posts_resend t ∷ es) = all_codes es
all_codes (toast_success t ∷ es) = all_codes es
all_codes (toast_error t ∷ es) = all_codes es

all_digits-digits : (t : Text) → all_digits (digits t) ≡ true
unfolding digits
all_digits-digits [] = refl
all_digits-digits (c ∷ cs) = ground (arith, all_digits-digits cs)

is_box-last : (t : Text) → all_digits t ≡ true → is_box (last t) ≡ true
unfolding last
is_box-last [] h = refl
is_box-last (c ∷ []) h = ground arith
is_box-last (c ∷ d ∷ cs) h = ground (arith, is_box-last (d ∷ cs))

all_digits-take : (n : ℕ) (t : Text) → all_digits t ≡ true → all_digits (take n t) ≡ true
unfolding take
all_digits-take zero t h = refl
all_digits-take (suc n) [] h = refl
all_digits-take (suc n) (c ∷ cs) h = ground (arith, all_digits-take n cs)

all_boxes-set_at :
    (n : ℕ) (t : Text) (us : List Text)
    → is_box t ≡ true
    → all_boxes us ≡ true
    → all_boxes (set_at n t us) ≡ true
unfolding set_at
all_boxes-set_at n t [] h k = ground arith
all_boxes-set_at zero t (u ∷ us) h k = ground arith
all_boxes-set_at (suc n) t (u ∷ us) h k = ground (arith, all_boxes-set_at n t us)

length-set_at : (n : ℕ) (t : Text) (us : List Text) → length (set_at n t us) ≡ length us
unfolding set_at
length-set_at zero t [] = refl
length-set_at (suc n) t [] = refl
length-set_at zero t (u ∷ us) = refl
length-set_at (suc n) t (u ∷ us) = ground (arith, length-set_at n t us)

all_boxes-split : (t : Text) → all_digits t ≡ true → all_boxes (split t) ≡ true
unfolding split
all_boxes-split [] h = refl
all_boxes-split (c ∷ cs) h = ground (arith, all_boxes-split cs)

length-split : (t : Text) → length (split t) ≡ length t
unfolding split
length-split [] = refl
length-split (c ∷ cs) = omega (arith, length-split cs)

-- The boxes joined.
length-join : (ts : List Text) → all_boxes ts ≡ true → length (join ts) ≤ length ts
unfolding join
length-join [] h = omega arith
length-join ([] ∷ ts) h = ground (arith, length-join ts)
length-join ((c ∷ []) ∷ ts) h = ground (arith, length-join ts)
length-join ((c ∷ d ∷ cs) ∷ ts) h = ground arith

all_digits-join : (ts : List Text) → all_boxes ts ≡ true → all_digits (join ts) ≡ true
unfolding join
all_digits-join [] h = refl
all_digits-join ([] ∷ ts) h = ground (arith, all_digits-join ts)
all_digits-join ((c ∷ []) ∷ ts) h = ground (arith, all_digits-join ts)
all_digits-join ((c ∷ d ∷ cs) ∷ ts) h = ground arith

pub record IsCoded (s : Page) : Type 0 where
  pub boxes : all_boxes s.code ≡ true
  pub six : length s.code ≡ 6
  pub sent : all_codes s.log ≡ true

handle_verify-IsCoded : (s : Page) → IsCoded s → IsCoded (handle_verify s)
unfolding handle_verify
handle_verify-IsCoded s i =
    ground (arith, length-join s.code i.boxes, all_digits-join s.code i.boxes)

set_code-IsCoded :
    (c : List Text) (s : Page)
    → all_boxes c ≡ true
    → length c ≡ 6
    → IsCoded s
    → IsCoded (set_code c s)
unfolding set_code
set_code-IsCoded c s h k i =
    let j : IsCoded (record s { code = c }) = record { boxes = h; six = k; sent = i.sent } in
    if_intro (λ t. IsCoded t) (all_filled c && not s.loading && not s.verified)
      (handle_verify (record s { code = c })) (record s { code = c })
      (λ e. handle_verify-IsCoded (record s { code = c }) j) (λ e. j)

handle_change-IsCoded : (n : ℕ) (v : Text) (s : Page) → IsCoded s → IsCoded (handle_change n v s)
unfolding handle_change
handle_change-IsCoded n v s i =
    let t = last (digits v) in
    set_code-IsCoded (set_at n t s.code) s
      (all_boxes-set_at n t s.code (is_box-last (digits v) (all_digits-digits v)) i.boxes)
      (length-set_at n t s.code ∙ i.six) i

handle_paste-IsCoded : (v : Text) (s : Page) → IsCoded s → IsCoded (handle_paste v s)
unfolding handle_paste
handle_paste-IsCoded v s i =
    let p = take 6 (digits v) in
    if_intro (λ t. IsCoded t) (length p == 6) (set_code (split p) s) s
      (λ e.
        set_code-IsCoded (split p) s
          (all_boxes-split p (all_digits-take 6 (digits v) (all_digits-digits v)))
          (ground (arith, length-split p, ==_iff (length p) 6)) i)
      (λ e. i)

press_verify-IsCoded : (s : Page) → IsCoded s → IsCoded (press_verify s)
unfolding press_verify
press_verify-IsCoded s i =
    if_intro (λ t. IsCoded t) (ltb (length (join s.code)) 6 || s.loading) s (handle_verify s)
      (λ e. i) (λ e. handle_verify-IsCoded s i)

-- A step that has a guard.
guarded : (b : Bool) (s t : Page) → IsCoded s → IsCoded t → IsCoded (if b then t else s)
guarded b s t i j = if_intro (λ u. IsCoded u) b t s (λ e. j) (λ e. i)

step-IsCoded : (e : Event) (s : Page) → IsCoded s → IsCoded (step e s)
unfolding step verify_answered handle_resend resend_answered tick
step-IsCoded (types n v) s i =
    guarded (s.loading || s.verified) (handle_change n v s) s (handle_change-IsCoded n v s i) i
step-IsCoded (pastes v) s i = guarded s.verified (handle_paste v s) s (handle_paste-IsCoded v s i) i
step-IsCoded presses s i = guarded s.verified (press_verify s) s (press_verify-IsCoded s i) i
step-IsCoded (resends m) s i = ground arith
step-IsCoded (verify_got none) s i = ground arith
step-IsCoded (verify_got (some m)) s i = ground arith
step-IsCoded (resend_got none) s i = ground arith
step-IsCoded (resend_got (some m)) s i = ground arith
step-IsCoded ticks s i = record { boxes = i.boxes; six = i.six; sent = i.sent }

run-IsCoded : (es : List Event) (s : Page) → IsCoded s → IsCoded (run es s)
unfolding run
run-IsCoded [] s i = i
run-IsCoded (e ∷ es) s i = run-IsCoded es (step e s) (step-IsCoded e s i)

-- Whatever is typed, pasted, pressed and answered, there are six boxes, each is empty or has one
-- digit, and each code that was sent has six digits.
pub run-mounted-IsCoded : (es : List Event) → IsCoded (run es mounted)
unfolding mounted
run-mounted-IsCoded es = run-IsCoded es mounted (record { boxes = refl; six = refl; sent = refl })
