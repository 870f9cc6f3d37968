-- ===== src/Modal/Confirming/Tests.antt =====
-- A deletion that takes its time.
use noant.Base.{ℕ, true, false, none, some, [], ◌∷◌, ◌≡◌, refl}
use noant.Modal.{
  Options, Modal, Event, show, confirm, cancel, overlay, escape, settle, on_cancel, step, run,
  closed,
}
use noant.Modal.Confirming.{IsHeld, run-IsHeld, settle-show-overlay}

abbrev options : (name : ℕ) → Options
options name = record {
  name = name;
  require_type_confirm = false;
  confirm_phrase = [];
  close_on_overlay_click = none;
}

abbrev deleting : Modal
deleting = record {
  modal_options = some (options 1);
  is_confirming = true;
  type_value = [];
  running = options 1 ∷ [];
  log = [];
}

run-IsHeld_test : IsHeld deleting (run (escape ∷ confirm ∷ cancel ∷ []) deleting)
run-IsHeld_test = run-IsHeld (escape ∷ confirm ∷ cancel ∷ []) deleting (tt, (tt, (tt, tt))) refl

settle-show-overlay_test :
    let n = run (overlay ∷ show (options 2) ∷ []) deleting in
    (n.modal_options ≡ some (options 2))
    × (n.log ≡ on_cancel (options 1) ∷ [])
    × ((step (settle 0) n).modal_options ≡ none)
unfolding noant.Modal.resolved_close_on_overlay
settle-show-overlay_test = settle-show-overlay (options 1) (options 2) deleting refl refl refl
