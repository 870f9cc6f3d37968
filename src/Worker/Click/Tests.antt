-- ===== src/Worker/Click/Tests.antt =====
-- A click on a notification without an address, with a window of another site before the own one.
use noant.Base.{Text, codes, true, [], ◌∷◌, ◌≡◌, refl}
use noant.Json.{str, undefined}
use noant.Worker.{Window, navigate, on_click, is_ours}
use noant.Worker.Click.{on_click_of_ours}

abbrev window : (url : Text) → Window
window url = record { url = url; can_focus = true }

on_click_of_ours_test :
    on_click
      (codes "https://noant.ai")
      true
      undefined
      (window (codes "https://x.test/") ∷ window (codes "https://noant.ai/chats") ∷ [])
    ≡ navigate 1 (str (codes "/"))
unfolding is_ours noant.Json.truthy noant.Json.or noant.Json.member?
on_click_of_ours_test =
    on_click_of_ours (codes "https://noant.ai") true undefined
      (window (codes "https://x.test/") ∷ []) [] (window (codes "https://noant.ai/chats"))
      (refl, tt) refl
