-- ===== src/UseApi/Toasts.antt =====
-- `dedupedToast` of frontend/src/hooks/useAPI.ts.
pub mod Spacing
use noant.Base.{ℕ, ◌-◌, ltb, Text, ◌===◌, Bool, ◌&&◌, List, [], ◌∷◌, if◌then◌else◌}

abbrev pub toast_dedup_ms : ℕ
toast_dedup_ms = 5000

-- `lastToastMsg`, `lastToastTime`, and the toasts that were shown, with their times, the newest
-- first. Times are milliseconds of a clock that does not go back.
pub record ToastLog : Type 0 where
  pub last_toast_msg : Text
  pub last_toast_time : ℕ
  pub shown : List (Text × ℕ)

unfoldable pub deduped_toast : Text → ℕ → ToastLog → ToastLog
deduped_toast msg now t =
    if msg === t.last_toast_msg && ltb (now - t.last_toast_time) toast_dedup_ms
    then t
    else record { last_toast_msg = msg; last_toast_time = now; shown = (msg, now) ∷ t.shown }
