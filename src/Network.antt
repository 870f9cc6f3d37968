-- ===== src/Network.antt =====
-- `NetworkProvider` of frontend/src/contexts/NetworkContext.tsx: the browser's `online` and
-- `offline`, the health checks, and the two flags that a return sets for a while. Each event is
-- rendered, and its effects are run, before the next.
pub mod Health
pub mod Flash
use noant.Base.{ℕ, ◌+◌, leb, Bool, true, false, not, ◌&&◌, List, [], ◌∷◌, if◌then◌else◌}

abbrev pub server_down_threshold : ℕ
server_down_threshold = 3

-- The states and the refs of the provider; `offline_timer` and `server_timer` say whether the
-- timer that takes the flag back is set.
pub record Network : Type 0 where
  pub is_online : Bool
  pub was_offline : Bool
  pub is_server_down : Bool
  pub was_server_down : Bool
  pub prev_online : Bool
  pub prev_server_down : Bool
  pub consecutive_failures : ℕ
  pub offline_timer : Bool
  pub server_timer : Bool

pub data Event : Type 0 where
  online offline check_ok check_failed offline_timeout server_timeout : Event

-- The effect on `[isOnline]`: the clean-up of the one before, then the body.
pub online_effect : Network → Network
online_effect n =
    if not n.prev_online && n.is_online
    then record n { was_offline = true; offline_timer = true; prev_online = n.is_online }
    else record n { offline_timer = false; prev_online = n.is_online }

-- The effect on `[isServerDown]`.
pub server_effect : Network → Network
server_effect n =
    if n.prev_server_down && not n.is_server_down
    then record n {
      was_server_down = true;
      server_timer = true;
      prev_server_down = n.is_server_down;
    }
    else record n { server_timer = false; prev_server_down = n.is_server_down }

abbrev pub equal : Bool → Bool → Bool
equal true b = b
equal false b = not b

-- `setIsOnline`, then the effect if the state changed.
pub set_online : Bool → Network → Network
unfolding online_effect
set_online b n = if equal n.is_online b then n else online_effect (record n { is_online = b })

-- `setIsServerDown`, likewise.
pub set_server_down : Bool → Network → Network
unfolding server_effect
set_server_down b n =
    if equal n.is_server_down b then n else server_effect (record n { is_server_down = b })

-- `checkHealth` behind an answer that is ok, and behind any other or none
pub healthy : Network → Network
unfolding set_server_down
healthy n = set_server_down false (record n { consecutive_failures = 0 })

pub failed : Network → Network
unfolding set_server_down
failed n =
    let m = record n { consecutive_failures = n.consecutive_failures + 1 } in
    if leb server_down_threshold m.consecutive_failures then set_server_down true m else m

pub step : Event → Network → Network
unfolding set_online healthy failed
step online n = set_online true n
step offline n = set_online false n
step check_ok n = healthy n
step check_failed n = failed n
step offline_timeout n =
    if n.offline_timer then record n { was_offline = false; offline_timer = false } else n
step server_timeout n =
    if n.server_timer then record n { was_server_down = false; server_timer = false } else n

pub run : List Event → Network → Network
unfolding step
run [] n = n
run (e ∷ es) n = run es (step e n)

-- The first render, with `navigator.onLine`.
pub initial : Bool → Network
initial on_line = record {
  is_online = on_line;
  was_offline = false;
  is_server_down = false;
  was_server_down = false;
  prev_online = on_line;
  prev_server_down = false;
  consecutive_failures = 0;
  offline_timer = false;
  server_timer = false;
}
