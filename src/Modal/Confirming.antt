-- ===== src/Modal/Confirming.antt =====
-- A modal while its `onConfirm` runs.
mod Tests
use noant.Base.{
  ℕ, zero, suc, Text, Bool, true, false, not, ◌||◌, Option, none, some, List, [], ◌∷◌, All,
  if◌then◌else◌, ◌≡◌, refl, ap, ◌∙◌, arith,
}
use noant.Modal.{
  Options, Call, on_confirm, on_cancel, Modal, Event, show, close, confirm, cancel, overlay, escape,
  type_text, settle, show_modal, close_modal, handle_confirm, confirmed, handle_cancel,
  resolved_close_on_overlay, type_match, drop_nth, press, shown, settled, step, run, closed,
}

-- The buttons, the keys and the input.
abbrev pub IsControl : Event → Type 0
IsControl confirm = Unit
IsControl cancel = Unit
IsControl escape = Unit
IsControl (type_text t) = Unit
IsControl _ = ⊥

-- All but the input is the same.
pub record IsHeld (m n : Modal) : Type 0 where
  pub modal_options : n.modal_options ≡ m.modal_options
  pub is_confirming : n.is_confirming ≡ m.is_confirming
  pub running : n.running ≡ m.running
  pub log : n.log ≡ m.log

press-IsHeld :
    (e : Event) (o : Options) (m : Modal)
    → IsControl e
    → m.is_confirming ≡ true
    → IsHeld m (press e o m)
unfolding press
press-IsHeld confirm o m c h = ground arith
press-IsHeld cancel o m c h = ground arith
press-IsHeld escape o m c h = ground arith
press-IsHeld (type_text t) o m c h = ground arith
press-IsHeld (show p) o m c h = elim c [ ]
press-IsHeld close o m c h = elim c [ ]
press-IsHeld overlay o m c h = elim c [ ]
press-IsHeld (settle n) o m c h = elim c [ ]

shown-IsHeld : (e : Event) (m : Modal) → IsControl e → m.is_confirming ≡ true → IsHeld m (shown e m)
unfolding shown
shown-IsHeld e m c h = at m.modal_options
  where
    at : (x : Option Options) → IsHeld m (elim x [ none ↦ m | some o ↦ press e o m ])
    at none = record { modal_options = refl; is_confirming = refl; running = refl; log = refl }
    at (some o) = press-IsHeld e o m c h

step-IsHeld : (e : Event) (m : Modal) → IsControl e → m.is_confirming ≡ true → IsHeld m (step e m)
unfolding step
step-IsHeld confirm m c h = shown-IsHeld confirm m c h
step-IsHeld cancel m c h = shown-IsHeld cancel m c h
step-IsHeld escape m c h = shown-IsHeld escape m c h
step-IsHeld (type_text t) m c h = shown-IsHeld (type_text t) m c h
step-IsHeld (show p) m c h = elim c [ ]
step-IsHeld close m c h = elim c [ ]
step-IsHeld overlay m c h = elim c [ ]
step-IsHeld (settle n) m c h = elim c [ ]

IsHeld-trans : (l m n : Modal) → IsHeld l m → IsHeld m n → IsHeld l n
IsHeld-trans l m n a b = record {
  modal_options = b.modal_options ∙ a.modal_options;
  is_confirming = b.is_confirming ∙ a.is_confirming;
  running = b.running ∙ a.running;
  log = b.log ∙ a.log;
}

-- While an `onConfirm` runs, no use of the buttons, of Escape and of the input calls a callback
-- or changes which modal is shown.
pub run-IsHeld :
    (es : List Event) (m : Modal) → All IsControl es → m.is_confirming ≡ true → IsHeld m (run es m)
unfolding run
run-IsHeld [] m c h = record {
  modal_options = refl;
  is_confirming = refl;
  running = refl;
  log = refl;
}
run-IsHeld (e ∷ es) m c h =
    let q = step-IsHeld e m c.0 h in
    IsHeld-trans m (step e m) (run es (step e m)) q
      (run-IsHeld es (step e m) c.1 (q.is_confirming ∙ h))

-- While an `onConfirm` runs, a click on the overlay of a modal that it may close cancels that
-- modal; and when the `onConfirm` ends, it closes the modal that is shown then, whichever it is.
pub settle-show-overlay :
    (o p : Options) (m : Modal)
    → m.modal_options ≡ some o
    → resolved_close_on_overlay o ≡ true
    → m.running ≡ o ∷ []
    → let n = run (overlay ∷ show p ∷ []) m in
      (n.modal_options ≡ some p)
      × (n.log ≡ on_cancel o ∷ m.log)
      × ((step (settle 0) n).modal_options ≡ none)
unfolding run step shown press show_modal settled drop_nth confirmed handle_cancel
settle-show-overlay o p m e h r = rw e (rw h (rw r (refl, refl, refl)))
