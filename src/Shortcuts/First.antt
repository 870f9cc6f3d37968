-- ===== src/Shortcuts/First.antt =====
-- Which shortcut answers a key.
mod Tests
use noant.Base.{
  ℕ, zero, suc, Text, All, Bool, true, false, Option, none, some, List, [], ◌∷◌, if◌then◌else◌, ◌≡◌,
  refl, if_intro,
}
use noant.Shortcuts.{Shortcut, Press, next, matches, handle_key_down}

module _ (lower : Text → Text) (e : Press) where
  -- `none` when no shortcut matches, and `some n` when the `n`-th does and no earlier one.
  abbrev pub IsFirst : List Shortcut → Option ℕ → Type 0
  IsFirst ss none = All (λ s. matches lower s e ≡ false) ss
  IsFirst [] (some n) = ⊥
  IsFirst (s ∷ ss) (some zero) = matches lower s e ≡ true
  IsFirst (s ∷ ss) (some (suc n)) = (matches lower s e ≡ false) × IsFirst ss (some n)

  next-IsFirst :
      (s : Shortcut) (ss : List Shortcut) (o : Option ℕ)
      → matches lower s e ≡ false
      → IsFirst ss o
      → IsFirst (s ∷ ss) (next o)
  next-IsFirst s ss none h i = (h, i)
  next-IsFirst s ss (some n) h i = (h, i)

  -- A key runs the handler of the first shortcut that matches it, and none when there is no such one.
  pub handle_key_down-IsFirst : (ss : List Shortcut) → IsFirst ss (handle_key_down lower ss e)
  unfolding handle_key_down
  handle_key_down-IsFirst [] = tt
  handle_key_down-IsFirst (s ∷ ss) =
      if_intro (IsFirst (s ∷ ss)) (matches lower s e) (some zero)
        (next (handle_key_down lower ss e)) (λ h. h)
        (λ h. next-IsFirst s ss (handle_key_down lower ss e) h (handle_key_down-IsFirst ss))
