-- ===== src/Channels/Copied/Tests.antt =====
-- The same webhook twice, with one timer in between.
use noant.Base.{length, true, false, none, List, [], ◌∷◌, ◌≡◌, refl}
use noant.Channels.{Channels}
use noant.Channels.Texts.Tests.{connected, updated}
use noant.Channels.Copied.{Event, copies, fires, run, fire_all, fire_all-run}

abbrev pub opened : Channels
opened = record {
  disconnect_channel = [];
  disconnect_loading = false;
  disconnect_error = [];
  copied_webhook_id = [];
  active_modal = none;
  connect_loading = false;
  show_upgrade_modal = false;
  locked_channel = [];
  show_disconnect = false;
  widget_config = none;
  timers = [];
  log = [];
}

abbrev presses : List Event
presses = copies connected true ∷ copies updated true ∷ fires ∷ copies updated true ∷ []

fire_all-run_example :
    (fire_all (length (run presses opened).timers) (run presses opened)).copied_webhook_id ≡ []
fire_all-run_example = fire_all-run presses opened refl
