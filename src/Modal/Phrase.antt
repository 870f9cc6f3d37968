-- ===== src/Modal/Phrase.antt =====
-- The phrase that a modal asks for.
mod Tests
use noant.Base.{
  ℕ, zero, suc, Text, ◌===◌, ===_iff, Bool, true, false, not, ◌||◌, Option, none, some, List, [],
  ◌∷◌, All, if_intro, if◌then◌else◌, ◌≡◌, refl, arith,
}
use noant.Modal.{
  Options, Call, on_confirm, on_cancel, Modal, Event, show, close, confirm, cancel, overlay, escape,
  type_text, settle, show_modal, close_modal, handle_confirm, confirmed, handle_cancel,
  resolved_close_on_overlay, type_match, drop_nth, press, shown, settled, step, run, closed,
}

-- `onConfirm` was called with the phrase in the input, if the modal asks for one.
abbrev pub Allowed : Call → Type 0
Allowed (on_confirm o typed) = o.require_type_confirm ≡ true → typed ≡ o.confirm_phrase
Allowed (on_cancel o) = Unit

abbrev pub IsSafe : Modal → Type 0
IsSafe m = All Allowed m.log

type_match-Allowed : (o : Options) (t : Text) → type_match o t ≡ true → Allowed (on_confirm o t)
unfolding type_match
type_match-Allowed o t e r = ground (arith, ===_iff t o.confirm_phrase)

press-IsSafe : (e : Event) (o : Options) (m : Modal) → IsSafe m → IsSafe (press e o m)
unfolding press handle_confirm handle_cancel
press-IsSafe confirm o m s =
    if_intro IsSafe (m.is_confirming || not (type_match o m.type_value)) m (handle_confirm o m)
      (λ _. s) (λ e. (type_match-Allowed o m.type_value (ground arith), s))
press-IsSafe cancel o m s =
    if_intro IsSafe m.is_confirming m (handle_cancel o m) (λ _. s) (λ _. (tt, s))
press-IsSafe escape o m s =
    if_intro IsSafe m.is_confirming m (handle_cancel o m) (λ _. s) (λ _. (tt, s))
press-IsSafe overlay o m s =
    if_intro IsSafe (resolved_close_on_overlay o) (handle_cancel o m) m (λ _. (tt, s)) (λ _. s)
press-IsSafe (type_text t) o m s =
    if_intro IsSafe o.require_type_confirm (record m { type_value = t }) m (λ _. s) (λ _. s)
press-IsSafe (show p) o m s = s
press-IsSafe close o m s = s
press-IsSafe (settle n) o m s = s

shown-IsSafe : (e : Event) (m : Modal) → IsSafe m → IsSafe (shown e m)
unfolding shown
shown-IsSafe e m s = at m.modal_options
  where
    at : (x : Option Options) → IsSafe (elim x [ none ↦ m | some o ↦ press e o m ])
    at none = s
    at (some o) = press-IsSafe e o m s

settled-IsSafe : (x : Option (List Options)) (m : Modal) → IsSafe m → IsSafe (settled x m)
unfolding settled confirmed
settled-IsSafe none m s = s
settled-IsSafe (some rest) m s = s

step-IsSafe : (e : Event) (m : Modal) → IsSafe m → IsSafe (step e m)
unfolding step show_modal close_modal
step-IsSafe (show o) m s = s
step-IsSafe close m s = s
step-IsSafe (settle n) m s = settled-IsSafe (drop_nth n m.running) m s
step-IsSafe confirm m s = shown-IsSafe confirm m s
step-IsSafe cancel m s = shown-IsSafe cancel m s
step-IsSafe overlay m s = shown-IsSafe overlay m s
step-IsSafe escape m s = shown-IsSafe escape m s
step-IsSafe (type_text t) m s = shown-IsSafe (type_text t) m s

run_from-IsSafe : (es : List Event) (m : Modal) → IsSafe m → IsSafe (run es m)
unfolding run
run_from-IsSafe [] m s = s
run_from-IsSafe (e ∷ es) m s = run_from-IsSafe es (step e m) (step-IsSafe e m s)

-- In any sequence of events from a page without a modal, the `onConfirm` of a modal that asks for
-- a phrase is called with just that phrase in the input.
pub run-closed-IsSafe : (es : List Event) → IsSafe (run es closed)
run-closed-IsSafe es = run_from-IsSafe es closed tt
