-- ===== src/VerifyEmail.antt =====
-- The page of frontend/src/app/(auth)/verify-email/page.tsx. Focus and the shaking of the boxes are left
-- out. A second goes by between two ticks.
pub mod Codes
pub mod Resending
use noant.Base.{
  ℕ, zero, suc, ◌+◌, ◌-◌, ◌==◌, ltb, leb, Text, codes, ◌===◌, length, Bool, true, false, not, ◌&&◌,
  ◌||◌, Option, none, some, List, [], ◌∷◌, ◌++◌, if◌then◌else◌,
}

pub data Effect : Type 0 where
  posts_verify posts_resend toast_success toast_error : Text → Effect

-- `code` has a text for each box; `log` has the newest effect first.
pub record Page : Type 0 where
  pub code : List Text
  pub loading : Bool
  pub resending : Bool
  pub verified : Bool
  pub cooldown : ℕ
  pub log : List Effect

abbrev pub does : Effect → Page → Page
does e s = record s { log = e ∷ s.log }

abbrev pub resend_cooldown : ℕ
resend_cooldown = 60

abbrev pub is_digit : ℕ → Bool
is_digit c = leb 48 c && leb c 57

-- `replace(/\D/g, '')`
pub digits : Text → Text
digits [] = []
digits (c ∷ cs) = let rest = digits cs in if is_digit c then c ∷ rest else rest

-- `slice(-1)`
pub last : Text → Text
last [] = []
last (c ∷ []) = c ∷ []
last (c ∷ d ∷ cs) = last (d ∷ cs)

pub set_at : ℕ → Text → List Text → List Text
set_at n t [] = []
set_at zero t (u ∷ us) = t ∷ us
set_at (suc n) t (u ∷ us) = u ∷ set_at n t us

-- `slice(0, n)` and `split('')`
pub take : ℕ → Text → Text
take zero t = []
take (suc n) [] = []
take (suc n) (c ∷ cs) = c ∷ take n cs

pub split : Text → List Text
split [] = []
split (c ∷ cs) = (c ∷ []) ∷ split cs

pub join : List Text → Text
join [] = []
join (t ∷ ts) = t ++ join ts

-- `code.every((d) => d !== '')`
pub all_filled : List Text → Bool
all_filled [] = true
all_filled (t ∷ ts) = not (t === []) && all_filled ts

abbrev pub empty_code : List Text
empty_code = [] ∷ [] ∷ [] ∷ [] ∷ [] ∷ [] ∷ []

-- `handleVerify` up to its request.
pub handle_verify : Page → Page
unfolding join
handle_verify s =
    if ltb (length (join s.code)) 6
    then does (toast_error (codes "Please enter the complete 6-digit code")) s
    else does (posts_verify (join s.code)) (record s { loading = true })

-- A new code, with the effect that sends a full one.
pub set_code : List Text → Page → Page
unfolding all_filled handle_verify
set_code code s =
    let t = record s { code = code } in
    if all_filled code && not s.loading && not s.verified then handle_verify t else t

pub handle_change : ℕ → Text → Page → Page
unfolding set_at last digits set_code
handle_change index value s = set_code (set_at index (last (digits value)) s.code) s

pub handle_paste : Text → Page → Page
unfolding split take digits set_code
handle_paste text s =
    let pasted = take 6 (digits text) in if length pasted == 6 then set_code (split pasted) s else s

-- The answer to the request, `none` being a success and `some` the message of the error. The code that
-- is cleared is not full.
pub verify_answered : Option Text → Page → Page
verify_answered none s = record (does (toast_success (codes "Email verified!")) s) {
  verified = true;
  loading = false;
}
verify_answered (some message) s =
    record (does
      (toast_error (
        if message === codes "invalid_code"
        then codes "Incorrect code. Please try again."
        else codes "Verification failed. Please try again."))
      s) { code = empty_code; loading = false }

pub handle_resend : Text → Page → Page
handle_resend email s =
    if ltb 0 s.cooldown || s.resending
    then s
    else does (posts_resend email) (record s { resending = true })

pub resend_answered : Option Text → Page → Page
resend_answered none s =
    record (does (toast_success (codes "Verification code resent! Check your inbox.")) s) {
      cooldown = resend_cooldown;
      code = empty_code;
      resending = false;
    }
resend_answered (some message) s =
    record (does (toast_error (if message === [] then codes "Failed to resend code" else message))
      s) { resending = false }

-- The timer of the cooldown.
pub tick : Page → Page
tick s = record s { cooldown = s.cooldown - 1 }

-- The page behind its first effects.
pub mounted : Page
mounted = record {
  code = empty_code;
  loading = false;
  resending = false;
  verified = false;
  cooldown = resend_cooldown;
  log = [];
}

-- The boxes and the buttons are there until the page is verified, and are disabled while a code is
-- checked; a text is pasted at any time.
pub press_verify : Page → Page
unfolding join handle_verify
press_verify s = if ltb (length (join s.code)) 6 || s.loading then s else handle_verify s

pub data Event : Type 0 where
  types : ℕ → Text → Event
  pastes resends : Text → Event
  presses ticks : Event
  verify_got resend_got : Option Text → Event

pub step : Event → Page → Page
unfolding handle_change handle_paste press_verify verify_answered handle_resend resend_answered tick
step (types i v) s = if s.loading || s.verified then s else handle_change i v s
step (pastes t) s = if s.verified then s else handle_paste t s
step presses s = if s.verified then s else press_verify s
step (resends email) s = if s.verified then s else handle_resend email s
step (verify_got a) s = if s.loading then verify_answered a s else s
step (resend_got a) s = if s.resending then resend_answered a s else s
step ticks s = tick s

pub run : List Event → Page → Page
unfolding step
run [] s = s
run (e ∷ es) s = run es (step e s)
