-- ===== src/Shortcuts.antt =====
-- The keyboard shortcuts: frontend/src/hooks/useKeyboardShortcuts.ts. A handler is the place of its
-- shortcut in the list.
pub mod First
use noant.Base.{
  ℕ, zero, suc, Text, ◌===◌, Bool, true, false, not, ◌&&◌, ◌||◌, Option, none, some, List, [], ◌∷◌,
  if◌then◌else◌,
}

-- A modifier that is not given is false.
pub record Shortcut : Type 0 where
  pub key : Text
  pub ctrl : Bool
  pub meta : Bool
  pub shift : Bool
  pub alt : Bool

pub record Press : Type 0 where
  pub key : Text
  pub ctrl_key : Bool
  pub meta_key : Bool
  pub shift_key : Bool
  pub alt_key : Bool

abbrev pub same : Bool → Bool → Bool
same true b = b
same false b = not b

abbrev pub next : Option ℕ → Option ℕ
next none = none
next (some n) = some (suc n)

-- `lower` is `toLowerCase`.
module _ (lower : Text → Text) where
  pub matches : Shortcut → Press → Bool
  matches s e =
      lower e.key === lower s.key
      && same s.ctrl (e.ctrl_key || e.meta_key)
      && same s.shift e.shift_key
      && same s.alt e.alt_key

  pub handle_key_down : List Shortcut → Press → Option ℕ
  unfolding matches
  handle_key_down [] e = none
  handle_key_down (s ∷ ss) e =
      let rest = handle_key_down ss e in if matches s e then some zero else next rest
