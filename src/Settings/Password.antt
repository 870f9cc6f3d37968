-- ===== src/Settings/Password.antt =====
-- What the form of the password sends.
mod Tests
use noant.Base.{
  ℕ, ◌+◌, ltb, Text, codes, ◌===◌, Bool, true, false, not, ◌&&◌, ◌||◌, Option, none, some, List, [],
  ◌∷◌, length, ◌≡◌, refl, subst, arith, Bool-cases, inl, inr, if_intro, if◌then◌else◌,
}
use noant.Settings.{
  Security, Effect, posts_change, toast_success, toast_error, does, handle_change, press_update,
  changed, Event, types, presses, answers, step, run_form,
}

-- Each password that is sent has eight units at least, and the old one is not empty.
abbrev pub all_long : List Effect → Bool
all_long [] = true
all_long (posts_change current new ∷ es) =
    not (ltb (length new) 8) && not (current === []) && all_long es
all_long (toast_success t ∷ es) = all_long es
all_long (toast_error t ∷ es) = all_long es

-- The requests that are sent, and those that have an answer.
abbrev pub requests : List Effect → ℕ
requests [] = 0
requests (posts_change current new ∷ es) = requests es + 1
requests (toast_success t ∷ es) = requests es
requests (toast_error t ∷ es) = requests es

abbrev pub flag : Bool → ℕ
flag true = 1
flag false = 0

-- `n` requests have an answer.
pub record IsSent (n : ℕ) (s : Security) : Type 0 where
  pub long : all_long s.log ≡ true
  pub single : requests s.log ≡ n + flag s.saving

abbrev pub answered : List Event → Security → ℕ
answered [] s = 0
answered (answers ok ∷ es) s = flag s.saving + answered es (step (answers ok) s)
answered (types a b c ∷ es) s = answered es (step (types a b c) s)
answered (presses ∷ es) s = answered es (step presses s)

handle_change-IsSent :
    (n : ℕ) (s : Security)
    → (s.saving || s.current_password === [] || s.new_password === []) ≡ false
    → IsSent n s
    → IsSent n (handle_change s)
unfolding handle_change
handle_change-IsSent n s h i = ground arith

press_update-IsSent : (n : ℕ) (s : Security) → IsSent n s → IsSent n (press_update s)
unfolding press_update
press_update-IsSent n s i =
    if_intro (λ t. IsSent n t) (s.saving || s.current_password === [] || s.new_password === []) s
      (handle_change s) (λ e. i) (λ e. handle_change-IsSent n s e i)

changed-IsSent :
    (n : ℕ) (ok : Bool) (s : Security)
    → s.saving ≡ true
    → IsSent n s
    → IsSent (n + 1) (changed ok s)
unfolding changed
changed-IsSent n true s h i = ground arith
changed-IsSent n false s h i = ground arith

answers-IsSent :
    (n : ℕ) (ok : Bool) (s : Security)
    → IsSent n s
    → IsSent (n + flag s.saving) (step (answers ok) s)
unfolding step
answers-IsSent n ok s i = elim (Bool-cases s.saving) [
  | inl h ↦ ground (arith, changed-IsSent n ok s)
  | inr h ↦ ground arith
]

run_form-IsSent :
    (n : ℕ) (es : List Event) (s : Security)
    → IsSent n s
    → IsSent (n + answered es s) (run_form es s)
unfolding run_form step
run_form-IsSent n [] s i = subst (λ m. IsSent m s) (omega arith) i
run_form-IsSent n (types a b c ∷ es) s i =
    run_form-IsSent n es (step (types a b c) s) (record { long = i.long; single = i.single })
run_form-IsSent n (presses ∷ es) s i =
    run_form-IsSent n es (step presses s) (press_update-IsSent n s i)
run_form-IsSent n (answers ok ∷ es) s i =
    subst (λ m. IsSent m (run_form es (step (answers ok) s))) (omega arith)
      (run_form-IsSent (n + flag s.saving) es (step (answers ok) s) (answers-IsSent n ok s i))

-- From a form that has sent nothing, whatever is typed, pressed and answered, each new password that
-- is sent has eight units at least and comes with the old one, and at most one request waits for its
-- answer: just while the form saves.
pub run_form-initial-IsSent :
    (es : List Event) (s : Security)
    → s.saving ≡ false
    → s.log ≡ []
    → IsSent (answered es s) (run_form es s)
run_form-initial-IsSent es s h l =
    subst (λ m. IsSent m (run_form es s)) (omega arith) (run_form-IsSent 0 es s (ground arith))
