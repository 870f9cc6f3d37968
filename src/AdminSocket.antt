-- ===== src/AdminSocket.antt =====
-- The hook of admin/src/lib/hooks/useAdminWS.ts. A socket that is made is in the state of the browser
-- until it is closed; the browser reports the end of a socket once.
pub mod Single
pub mod Leak
use noant.Base.{
  ℕ, zero, suc, ◌+◌, ◌==◌, Text, codes, starts_with, slice, length, Bool, true, false, not, ◌&&◌,
  ◌||◌, Option, none, some, List, [], ◌∷◌, ◌++◌, if◌then◌else◌,
}

-- `readyState`; `ready` is `OPEN`.
pub data Phase : Type 0 where
  connecting ready closing closed : Phase

pub record Link : Type 0 where
  pub number : ℕ
  pub phase : Phase

-- `ws_ref` and `reconnect_timeout` hold what was made last, also when it is over. `links` has the
-- newest socket first; `pending` are the timers that wait; `handled` are the messages that a handler
-- got, the newest first.
pub record Hook : Type 0 where
  pub ws_ref : Option ℕ
  pub connected : Bool
  pub reconnect_timeout : Option ℕ
  pub links : List Link
  pub pending : List ℕ
  pub made : ℕ
  pub timers : ℕ
  pub handled : List Text

-- `API_BASE.replace(/^https?:\/\//, '')`
pub drop_scheme : Text → Text
drop_scheme base =
    if starts_with (codes "https://") base
    then slice (length (codes "https://")) base
    else if starts_with (codes "http://") base
    then slice (length (codes "http://")) base
    else base

pub socket_address : (page_is_https : Bool) → (api_base : Text) → Text
unfolding drop_scheme
socket_address page_is_https base =
    (if page_is_https then codes "wss:" else codes "ws:")
    ++ codes "//"
    ++ drop_scheme base
    ++ codes "/api/v1/admin/ws"

abbrev pub phase_of : ℕ → List Link → Phase
phase_of n [] = closed
phase_of n (l ∷ ls) = if l.number == n then l.phase else phase_of n ls

abbrev pub is_open : Phase → Bool
is_open ready = true
is_open _ = false

abbrev pub is_connecting : Phase → Bool
is_connecting connecting = true
is_connecting _ = false

abbrev pub is_live : Phase → Bool
is_live closed = false
is_live _ = true

pub set_phase : ℕ → Phase → List Link → List Link
set_phase n p [] = []
set_phase n p (l ∷ ls) =
    let rest = set_phase n p ls in if l.number == n then record l { phase = p } ∷ ls else l ∷ rest

pub without : ℕ → List ℕ → List ℕ
without n [] = []
without n (t ∷ ts) = let rest = without n ts in if t == n then rest else t ∷ rest

abbrev pub has : ℕ → List ℕ → Bool
has n [] = false
has n (t ∷ ts) = t == n || has n ts

abbrev pub ref_is_open : Hook → Bool
ref_is_open s = elim s.ws_ref [ none ↦ false | some n ↦ is_open (phase_of n s.links) ]

pub connect : Hook → Hook
connect s = if ref_is_open s then s else record s {
  ws_ref = some s.made;
  links = record { number = s.made; phase = connecting } ∷ s.links;
  made = s.made + 1;
}

-- `if (reconnectTimeout.current) clearTimeout(reconnectTimeout.current)`
pub clear_timeout : Hook → Hook
unfolding without
clear_timeout s = elim s.reconnect_timeout [
  | none ↦ s
  | some t ↦ record s { pending = without t s.pending }
]

-- `close()` of a socket; its end is reported later.
pub close : ℕ → Hook → Hook
unfolding set_phase
close n s =
    if is_live (phase_of n s.links) then record s { links = set_phase n closing s.links } else s

pub on_open : ℕ → Hook → Hook
unfolding set_phase clear_timeout
on_open n s = clear_timeout (record s { links = set_phase n ready s.links; connected = true })

pub on_close : ℕ → Hook → Hook
unfolding set_phase
on_close n s = record s {
  links = set_phase n closed s.links;
  connected = false;
  pending = s.timers ∷ s.pending;
  reconnect_timeout = some s.timers;
  timers = s.timers + 1;
}

pub on_error : ℕ → Hook → Hook
unfolding close
on_error n s = close n s

-- A message whose type a handler is there for, or is not there for, or that is malformed.
pub on_message : (has_handler : Bool) → Option Text → Hook → Hook
on_message true (some t) s = record s { handled = t ∷ s.handled }
on_message false (some t) s = s
on_message _ none s = s

-- A timer that is over.
pub fire : ℕ → Hook → Hook
unfolding connect without
fire t s = connect (record s { pending = without t s.pending })

-- The cleanup of the effect.
pub unmount : Hook → Hook
unfolding clear_timeout close
unmount s = let t = clear_timeout s in elim t.ws_ref [ none ↦ t | some n ↦ close n t ]

-- What the browser does and the end of the page.
pub data Event : Type 0 where
  opens closes errs fires : ℕ → Event
  receives : Bool → Option Text → Event
  unmounts : Event

pub step : Event → Hook → Hook
unfolding on_open on_close on_error on_message fire unmount
step (opens n) s = if is_connecting (phase_of n s.links) then on_open n s else s
step (closes n) s = if is_live (phase_of n s.links) then on_close n s else s
step (errs n) s = if is_live (phase_of n s.links) then on_error n s else s
step (fires t) s = if has t s.pending then fire t s else s
step (receives h m) s = on_message h m s
step unmounts s = unmount s

pub run : List Event → Hook → Hook
unfolding step
run [] s = s
run (e ∷ es) s = run es (step e s)

-- The hook when it is mounted.
pub start : Hook
unfolding connect
start = connect (record {
  ws_ref = none;
  connected = false;
  reconnect_timeout = none;
  links = [];
  pending = [];
  made = 0;
  timers = 0;
  handled = [];
})
