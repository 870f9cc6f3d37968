-- ===== src/Toasts.antt =====
-- ToastProvider of frontend/src/components/ui/Toast.tsx. The id of a toast, which is random there, is
-- a part of the event.
pub mod Gone
use noant.Base.{ℕ, ◌+◌, leb, Text, ◌===◌, Bool, true, false, List, [], ◌∷◌, ◌++◌, if◌then◌else◌}

pub data Kind : Type 0 where
  success error warning info : Kind

pub record Toast : Type 0 where
  pub id : Text
  pub message : Text
  pub kind : Kind

-- A timer that removes the toast `toast` at the time `due`.
pub record Timer : Type 0 where
  pub due : ℕ
  pub toast : Text

pub record Provider : Type 0 where
  pub now : ℕ
  pub toasts : List Toast
  pub timers : List Timer

-- `prev.filter(t => t.id !== id)`
pub without : Text → List Toast → List Toast
without id [] = []
without id (t ∷ ts) = let rest = without id ts in if t.id === id then rest else t ∷ rest

pub toast : Text → Text → Kind → Provider → Provider
toast id message kind s = record s {
  toasts = s.toasts ++ record { id = id; message = message; kind = kind } ∷ [];
  timers = record { due = s.now + 4000; toast = id } ∷ s.timers;
}

pub remove : Text → Provider → Provider
unfolding without
remove id s = record s { toasts = without id s.toasts }

-- The callbacks of the timers that are due; the others wait on.
pub fire : List Timer → Provider → Provider
unfolding remove
fire [] s = s
fire (t ∷ ts) s =
    if leb t.due s.now
    then fire ts (remove t.toast s)
    else fire ts (record s { timers = t ∷ s.timers })

-- Time goes by.
pub pass : ℕ → Provider → Provider
unfolding fire
pass d s = fire s.timers (record s { now = s.now + d; timers = [] })

pub data Event : Type 0 where
  shows : (id message : Text) → Kind → Event
  removes : Text → Event
  passes : ℕ → Event

pub run : List Event → Provider → Provider
unfolding toast remove pass
run [] s = s
run (shows id message kind ∷ es) s = run es (toast id message kind s)
run (removes id ∷ es) s = run es (remove id s)
run (passes d ∷ es) s = run es (pass d s)

abbrev pub no_toasts : Provider
no_toasts = record { now = 0; toasts = []; timers = [] }
