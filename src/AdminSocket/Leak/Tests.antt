-- ===== src/AdminSocket/Leak/Tests.antt =====
-- A page that is left while its socket is open.
use noant.Base.{true, none, some, [], ◌∷◌, ◌≡◌, refl}
use noant.AdminSocket.{Hook, ready, unmount}
use noant.AdminSocket.Leak.{rounds, made-rounds-unmount}

abbrev open_page : Hook
open_page = record {
  ws_ref = some 0;
  connected = true;
  reconnect_timeout = none;
  links = record { number = 0; phase = ready } ∷ [];
  pending = [];
  made = 1;
  timers = 0;
  handled = [];
}

made-rounds-unmount_test : (rounds 5 (unmount open_page)).made ≡ 6
made-rounds-unmount_test = made-rounds-unmount 5 open_page 0 refl refl
