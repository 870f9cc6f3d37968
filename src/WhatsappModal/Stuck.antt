-- ===== src/WhatsappModal/Stuck.antt =====
-- A code that is asked for again when the loop has ended.
mod Tests
use noant.Base.{
  ℕ, zero, suc, ◌+◌, ◌==◌, Text, codes, ◌===◌, ===_iff, ===_refl, ==_refl, Bool, true, false, not,
  ◌&&◌, ◌||◌, Option, none, some, List, [], ◌∷◌, ◌≡◌, refl, sym, ap, ◌∙◌, subst, arith, if_intro,
  Bool-cases, inl, inr, if◌then◌else◌,
}
use noant.WhatsappModal.{
  View, form, qr, verifying, success, broken, connecting, Effect, posts_connect, posts_refresh,
  posts_ping, gets_status, gets_fast, gets_forced, on_connect, on_close, Modal, Status, same_view,
  tag, start_polling, render, change_phone, handle_connect, polled, handle_refresh_qr, refreshed,
  refresh_failed, handle_test, in_form, can_connect, polls_for, does, Event, types, connects,
  verifies, refreshes, tests, times_out, closes, connect_got, connect_fails, verify_fails,
  refresh_fails, poll_got, verify_got, force_got, refresh_got, test_got, receives, handle, step,
  run,
}

-- The requests of the loops.
abbrev pub asks : List Effect → ℕ
asks [] = 0
asks (gets_status t ∷ es) = suc (asks es)
asks (posts_connect t ∷ es) = asks es
asks (posts_refresh t ∷ es) = asks es
asks (posts_ping t ∷ es) = asks es
asks (gets_fast t ∷ es) = asks es
asks (gets_forced t ∷ es) = asks es
asks (on_connect ∷ es) = asks es
asks (on_close ∷ es) = asks es

-- What the buttons of the form and `Refresh QR` do, where the answers bring no code and no session but
-- `k`, and any answer to a poll.
abbrev pub is_quiet : Text → Event → Bool
is_quiet k (types t) = true
is_quiet k connects = true
is_quiet k tests = true
is_quiet k refreshes = true
is_quiet k (refresh_fails m) = true
is_quiet k (refresh_got sid code) = code === [] && (sid === [] || sid === k)
is_quiet k (poll_got sid seen r) = true
is_quiet k _ = false

abbrev pub all_quiet : Text → List Event → Bool
all_quiet k [] = true
all_quiet k (e ∷ es) = is_quiet k e && all_quiet k es

-- The code of `k` is to be shown, there is none, and no loop is active; `n` requests were sent.
pub record IsStuck (k : Text) (n : ℕ) (s : Modal) : Type 0 where
  pub view : s.view ≡ qr
  pub session : s.session_id ≡ k
  pub code : s.qr_code ≡ []
  pub ended : s.polls ≡ none
  pub asked : asks s.log ≡ n

===_of_eq : (a b : Text) → a ≡ b → (a === b) ≡ true
===_of_eq a b h = subst (λ t. (a === t) ≡ true) h (===_refl a)

same_view_refl : (v w : View) → v ≡ w → same_view v w ≡ true
same_view_refl v w h = subst (λ u. same_view v u ≡ true) h (==_refl (tag v))

all_three : (a b c : Bool) → a ≡ true → b ≡ true → c ≡ true → (a && b && c) ≡ true
all_three a b c h i j = ground arith

render_lem :
    (s t : Modal)
    → s.view ≡ t.view
    → s.session_id ≡ t.session_id
    → s.qr_code ≡ t.qr_code
    → render s t ≡ t
unfolding render
render_lem s t v k c =
    let e : (same_view s.view t.view && s.session_id === t.session_id && s.qr_code === t.qr_code)
        ≡ true =
      all_three _ _ _ (same_view_refl s.view t.view v) (===_of_eq s.session_id t.session_id k)
        (===_of_eq s.qr_code t.qr_code c) in
    ap (λ b. if b then t else start_polling t) e

handle-IsStuck :
    (k : Text) (n : ℕ) (e : Event) (s : Modal)
    → is_quiet k e ≡ true
    → IsStuck k n s
    → IsStuck k n (handle e s)
unfolding handle change_phone handle_connect handle_refresh_qr refreshed refresh_failed handle_test
handle-IsStuck k n (types t) s h i = ground arith
handle-IsStuck k n connects s h i = ground arith
handle-IsStuck k n verifies s h i = ground arith
handle-IsStuck k n refreshes s h i = ground arith
handle-IsStuck k n tests s h i = ground arith
handle-IsStuck k n times_out s h i = ground arith
handle-IsStuck k n closes s h i = ground arith
handle-IsStuck k n (connect_got r) s h i = ground arith
handle-IsStuck k n (connect_fails m) s h i = ground arith
handle-IsStuck k n (verify_fails m) s h i = ground arith
handle-IsStuck k n (refresh_fails m) s h i = record {
  view = i.view;
  session = i.session;
  code = i.code;
  ended = i.ended;
  asked = i.asked;
}
handle-IsStuck k n (poll_got sid seen r) s h i = ground arith
handle-IsStuck k n (verify_got sid b) s h i = ground arith
handle-IsStuck k n (force_got b) s h i = ground arith
handle-IsStuck k n (refresh_got sid code) s h i = ground (arith, ===_iff code [], ===_iff sid k)
handle-IsStuck k n (test_got a m) s h i = ground arith
handle-IsStuck k n (receives t c st) s h i = ground arith

step-IsStuck :
    (k : Text) (n : ℕ) (e : Event) (s : Modal)
    → is_quiet k e ≡ true
    → IsStuck k n s
    → IsStuck k n (step e s)
unfolding step
step-IsStuck k n e s h i =
    let j = handle-IsStuck k n e s h i in
    subst (λ t. IsStuck k n t)
      (sym (
        render_lem s (handle e s) (i.view ∙ sym j.view) (i.session ∙ sym j.session)
          (i.code ∙ sym j.code)))
      j

-- When a code has expired, so that the loop has ended, and `Refresh QR` brings neither a code nor
-- another session, then nothing is asked for any more, however often it is pressed: the effect that
-- polls depends on the session and the code alone, which have not changed.
pub run-IsStuck :
    (k : Text) (n : ℕ) (es : List Event) (s : Modal)
    → all_quiet k es ≡ true
    → IsStuck k n s
    → IsStuck k n (run es s)
unfolding run
run-IsStuck k n [] s h i = i
run-IsStuck k n (e ∷ es) s h i =
    run-IsStuck k n es (step e s) (ground arith) (step-IsStuck k n e s (ground arith) i)
