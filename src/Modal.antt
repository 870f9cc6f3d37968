-- ===== src/Modal.antt =====
-- `ModalProvider` and its `ConfirmModalRenderer`, frontend/src/contexts/ModalContext.tsx. Each
-- event is rendered before the next. The focus and the looks are left out.
pub mod Confirming
pub mod Phrase
use noant.Base.{
  ℕ, zero, suc, Text, ◌===◌, Bool, true, false, not, ◌&&◌, ◌||◌, Option, none, some, List, [], ◌∷◌,
  if◌then◌else◌,
}

-- `ModalOptions`: `name` stands for the texts and the callbacks. `require_type_confirm` and
-- `confirm_phrase` have their defaults in; `close_on_overlay_click` may be absent.
pub record Options : Type 0 where
  pub name : ℕ
  pub require_type_confirm : Bool
  pub confirm_phrase : Text
  pub close_on_overlay_click : Option Bool

-- A callback that was called; of `onConfirm`, with what the input then held.
pub data Call : Type 0 where
  on_confirm : Options → Text → Call
  on_cancel : Options → Call

-- `type_value` is the state of the renderer, which lives as long as some modal is shown; `running`
-- has the `onConfirm`s that are awaited, and `log` the callbacks, the newest first.
pub record Modal : Type 0 where
  pub modal_options : Option Options
  pub is_confirming : Bool
  pub type_value : Text
  pub running : List Options
  pub log : List Call

-- `settle n`: the `n`-th of the awaited `onConfirm`s ends, well or not.
pub data Event : Type 0 where
  show : Options → Event
  close confirm cancel overlay escape : Event
  type_text : Text → Event
  settle : ℕ → Event

-- A renderer that is mounted starts with an empty input; one that stays keeps its own.
mounted : Option Options → Text → Text
mounted none typed = []
mounted (some o) typed = typed

pub show_modal : Options → Modal → Modal
unfolding mounted
show_modal o m = record m {
  modal_options = some o;
  is_confirming = false;
  type_value = mounted m.modal_options m.type_value;
}

pub close_modal : Modal → Modal
close_modal m = record m { modal_options = none; is_confirming = false }

-- `handleConfirm`, up to its `await`
pub handle_confirm : Options → Modal → Modal
handle_confirm o m = record m {
  is_confirming = true;
  running = o ∷ m.running;
  log = on_confirm o m.type_value ∷ m.log;
}

-- the `finally` of `handleConfirm`
pub confirmed : List Options → Modal → Modal
confirmed rest m = record m { modal_options = none; is_confirming = false; running = rest }

pub handle_cancel : Options → Modal → Modal
handle_cancel o m = record m {
  modal_options = none;
  is_confirming = false;
  log = on_cancel o ∷ m.log;
}

-- `closeOnOverlayClick ?? !requireTypeConfirm`
pub resolved_close_on_overlay : Options → Bool
resolved_close_on_overlay o = elim o.close_on_overlay_click [
  | none ↦ not o.require_type_confirm
  | some b ↦ b
]

pub type_match : Options → Text → Bool
type_match o typed = not o.require_type_confirm || typed === o.confirm_phrase

pub drop_nth : ℕ → List Options → Option (List Options)
drop_nth n [] = none
drop_nth zero (o ∷ os) = some os
drop_nth (suc n) (o ∷ os) = elim (drop_nth n os) [ none ↦ none | some rest ↦ some (o ∷ rest) ]

-- What the events of the renderer do, with the options that it shows.
pub press : Event → Options → Modal → Modal
unfolding resolved_close_on_overlay type_match handle_confirm handle_cancel
press confirm o m =
    if m.is_confirming || not (type_match o m.type_value) then m else handle_confirm o m
press cancel o m = if m.is_confirming then m else handle_cancel o m
press escape o m = if m.is_confirming then m else handle_cancel o m
press overlay o m = if resolved_close_on_overlay o then handle_cancel o m else m
press (type_text t) o m = if o.require_type_confirm then record m { type_value = t } else m
press _ o m = m

pub shown : Event → Modal → Modal
unfolding press
shown e m = elim m.modal_options [ none ↦ m | some o ↦ press e o m ]

pub settled : Option (List Options) → Modal → Modal
unfolding confirmed
settled none m = m
settled (some rest) m = confirmed rest m

pub step : Event → Modal → Modal
unfolding show_modal close_modal shown settled drop_nth
step (show o) m = show_modal o m
step close m = close_modal m
step (settle n) m = settled (drop_nth n m.running) m
step e m = shown e m

pub run : List Event → Modal → Modal
unfolding step
run [] m = m
run (e ∷ es) m = run es (step e m)

abbrev pub closed : Modal
closed = record {
  modal_options = none;
  is_confirming = false;
  type_value = [];
  running = [];
  log = [];
}
