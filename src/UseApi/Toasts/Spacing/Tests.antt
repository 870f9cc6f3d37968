-- ===== src/UseApi/Toasts/Spacing/Tests.antt =====
-- One message three times, with another in between.
use noant.Base.{ℕ, codes, Text, List, [], ◌∷◌, ◌≡◌, refl, arith}
use noant.UseApi.Toasts.{ToastLog, deduped_toast}
use noant.UseApi.Toasts.Spacing.{IsValid, toasted, toasted-IsValid}

abbrev start : ToastLog
start = record { last_toast_msg = []; last_toast_time = 0; shown = [] }

abbrev calls : List (Text × ℕ)
calls = (codes "Offline", 7000) ∷ (codes "Offline", 11999) ∷ (codes "Offline", 12000) ∷ []

toasted-IsValid_test : IsValid (toasted calls start)
toasted-IsValid_test =
    toasted-IsValid calls start (omega arith) (record { spaced = tt; remembers = tt })

two_shown : (toasted calls start).shown ≡ (codes "Offline", 12000) ∷ (codes "Offline", 7000) ∷ []
unfolding toasted deduped_toast
two_shown = refl
