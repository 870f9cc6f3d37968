-- ===== src/Worker/Click.antt =====
-- Which window a click on a notification takes, and the address it goes to.
mod Tests
use noant.Base.{
  ℕ, zero, suc, ◌+◌, Text, codes, length, Bool, true, false, not, List, [], ◌∷◌, ◌++◌, All, ◌≡◌,
  refl, ap, ◌∙◌, arith, if◌then◌else◌,
}
use noant.Json.{Value, str, or, member?}
use noant.Worker.{
  Window, ClickAction, navigate, open_window, nothing, is_ours, focus_first, on_click,
}

module _ (origin : Text) (can_open : Bool) (url : Value) where
  focus_first-append :
      (before ws : List Window) (i : ℕ)
      → All (λ w. is_ours origin w ≡ false) before
      → focus_first origin can_open url i (before ++ ws)
        ≡ focus_first origin can_open url (i + length before) ws
  unfolding focus_first
  focus_first-append [] ws i a = ap (λ j. focus_first origin can_open url j ws) (omega arith)
  focus_first-append (w ∷ before) ws i a = rw a.0 (
      focus_first-append before ws (i + 1) a.1
      ∙ ap (λ j. focus_first origin can_open url j ws) (omega arith))

-- A click goes to the address in the notification's data, and to `/` without one; of the windows
-- it takes the first that is the site's own and can be focused.
pub on_click_of_ours :
    (origin : Text) (can_open : Bool) (payload : Value) (before after : List Window) (w : Window)
    → All (λ v. is_ours origin v ≡ false) before
    → is_ours origin w ≡ true
    → on_click origin can_open payload (before ++ w ∷ after)
      ≡ navigate (length before) (or (member? payload (codes "url")) (str (codes "/")))
unfolding on_click focus_first
on_click_of_ours origin can_open payload before after w a e =
    focus_first-append origin can_open _ before (w ∷ after) 0 a
    ∙ rw e
        (ap (λ n. navigate n (or (member? payload (codes "url")) (str (codes "/")))) (omega arith))
