-- ===== src/WhatsappModal/Polling.antt =====
-- What is polled.
mod Tests
use noant.Base.{
  ℕ, zero, suc, ◌+◌, ◌==◌, Text, codes, ◌===◌, ===_iff, ===_refl, Bool, true, false, not, ◌&&◌,
  ◌||◌, Option, none, some, List, [], ◌∷◌, ◌≡◌, refl, sym, ap, ◌∙◌, subst, arith, if_intro,
  Option-cases, Bool-cases, ◌⊎◌, inl, inr, if◌then◌else◌,
}
use noant.WhatsappModal.{
  View, form, qr, verifying, success, broken, connecting, Modal, Session, Status, same_view, tag,
  start_polling, render, succeed, handle_close, change_phone, can_connect, handle_connect,
  connect_answered, connect_failed, polled, handle_verify, verify_answered, force_answered,
  verify_failed, handle_refresh_qr, refreshed, refresh_failed, handle_test, tested, received,
  timed_out, in_form, polls_for, stop, again, Event, types, connects, verifies, refreshes, tests,
  times_out, closes, connect_got, connect_fails, verify_fails, refresh_fails, poll_got, verify_got,
  force_got, refresh_got, test_got, receives, handle, step, run,
}

abbrev pub polls_shown : Option Text → View → Text → Bool
polls_shown none v sid = true
polls_shown (some k) v sid = same_view v qr && (k === sid && not (k === []))

-- A session is polled only while its code is shown.
pub record IsPolling (s : Modal) : Type 0 where
  pub shown : polls_shown s.polls s.view s.session_id ≡ true

start_polling-IsPolling : (s : Modal) → IsPolling (start_polling s)
unfolding start_polling
start_polling-IsPolling s = ground (arith, ===_refl s.session_id)

same_view_qr : (v w : View) → same_view v w ≡ true → same_view v qr ≡ same_view w qr
same_view_qr v w h = ground arith

polls_shown_lem :
    (o : Option Text) (v w : View) (k : Text)
    → same_view v w ≡ true
    → polls_shown o v k ≡ true
    → polls_shown o w k ≡ true
polls_shown_lem none v w k h i = refl
polls_shown_lem (some j) v w k h i = ground (arith, same_view_qr v w)

both : (a b : Bool) → (a && b) ≡ true → (a ≡ true) × (b ≡ true)
both true true h = (refl, refl)
both true false h = ground arith
both false b h = ground arith

-- A state with the view and the session of another.
kept_lem :
    (s t : Modal)
    → IsPolling s
    → (t.polls ≡ s.polls) ⊎ (t.polls ≡ none)
    → same_view s.view t.view ≡ true
    → s.session_id ≡ t.session_id
    → IsPolling t
kept_lem s t i (inl p) v e = record {
  shown =
      subst (λ o. polls_shown o t.view t.session_id ≡ true) (sym p)
        (subst (λ k. polls_shown s.polls t.view k ≡ true) e
          (polls_shown_lem s.polls s.view t.view s.session_id v i.shown));
}
kept_lem s t i (inr p) v e = record { shown = ground arith }

render-IsPolling :
    (s t : Modal) → IsPolling s → (t.polls ≡ s.polls) ⊎ (t.polls ≡ none) → IsPolling (render s t)
unfolding render
render-IsPolling s t i h =
    if_intro (λ u. IsPolling u)
      (same_view s.view t.view && s.session_id === t.session_id && s.qr_code === t.qr_code) t
      (start_polling t)
      (λ e.
        let (r, q) =
          both (same_view s.view t.view && s.session_id === t.session_id) (s.qr_code === t.qr_code)
            e in
        let (v, k) = both (same_view s.view t.view) (s.session_id === t.session_id) r in
        kept_lem s t i h v ((===_iff s.session_id t.session_id).0 k))
      (λ e. start_polling-IsPolling t)

polled_lem :
    (sid seen : Text) (r : Status) (s : Modal)
    → ((polled sid seen r s).polls ≡ s.polls) ⊎ ((polled sid seen r s).polls ≡ none)
unfolding polled
polled_lem sid seen r s = elim (Bool-cases r.connected) [
  | inl a ↦ inr (ground arith)
  | inr a ↦ elim (Bool-cases (r.status === codes "expired")) [
    | inl b ↦ inr (ground arith)
    | inr b ↦ elim (Bool-cases (r.status === codes "failed")) [
      | inl c ↦ inr (ground arith)
      | inr c ↦ elim (Bool-cases (r.status === codes "disconnected")) [
        | inl d ↦ inr (ground arith)
        | inr d ↦ inl (ground arith)
      ]
    ]
  ]
]

-- What an event leaves of the loop.
handle_lem : (e : Event) (s : Modal) → ((handle e s).polls ≡ s.polls) ⊎ ((handle e s).polls ≡ none)
unfolding handle change_phone can_connect handle_connect handle_verify handle_refresh_qr handle_test
    timed_out handle_close connect_answered connect_failed verify_failed refresh_failed
    verify_answered force_answered refreshed tested received succeed
handle_lem (types t) s = inl (ground arith)
handle_lem connects s = inl (ground arith)
handle_lem verifies s = inl (ground arith)
handle_lem refreshes s = inl (ground arith)
handle_lem tests s = inl (ground arith)
handle_lem times_out s = inl (ground arith)
handle_lem closes s = inl refl
handle_lem (connect_got r) s = inl (ground arith)
handle_lem (connect_fails m) s = inl refl
handle_lem (verify_fails m) s = inl refl
handle_lem (refresh_fails m) s = inl refl
handle_lem (poll_got sid seen r) s =
    if_intro (λ t. (t.polls ≡ s.polls) ⊎ (t.polls ≡ none)) (polls_for sid s) (polled sid seen r s) s
      (λ e. polled_lem sid seen r s) (λ e. inl refl)
handle_lem (verify_got sid true) s = inl refl
handle_lem (verify_got sid false) s = inl refl
handle_lem (force_got true) s = inl refl
handle_lem (force_got false) s = inl refl
handle_lem (refresh_got sid code) s = inl refl
handle_lem (test_got none m) s = inl refl
handle_lem (test_got (some []) m) s = inl refl
handle_lem (test_got (some (c ∷ cs)) m) s = inl refl
handle_lem (receives t c st) s = inl (ground arith)

step-IsPolling : (e : Event) (s : Modal) → IsPolling s → IsPolling (step e s)
unfolding step
step-IsPolling e s i = render-IsPolling s (handle e s) i (handle_lem e s)

runs : (es : List Event) (s : Modal) → IsPolling s → IsPolling (run es s)
unfolding run
runs [] s i = i
runs (e ∷ es) s i = runs es (step e s) (step-IsPolling e s i)

-- Whatever happens to the modal, from a state in which nothing is polled, the loop that is active asks
-- for the session that the modal has, which is not empty, and only while its code is shown.
pub run-IsPolling : (es : List Event) (s : Modal) → s.polls ≡ none → IsPolling (run es s)
run-IsPolling es s h = runs es s (record { shown = ground arith })
