-- ===== src/WhatsappModal/Phone.antt =====
-- Which numbers are accepted.
mod Tests
use noant.Base.{
  ℕ, zero, suc, ◌+◌, ◌==◌, ltb, leb, Text, codes, ◌===◌, slice, starts_with, length, Bool, true,
  false, not, ◌&&◌, ◌||◌, List, [], ◌∷◌, ◌≡◌, refl, arith, if_intro, if◌then◌else◌,
}
use noant.WhatsappModal.{
  Modal, cleaned, every_digit, all_digits, is_digit, validate_cleaned, validate_phone,
}

-- Nothing, or a plus and 8 to 15 digits.
abbrev pub is_accepted : Text → Bool
is_accepted [] = true
is_accepted (c ∷ d) = c == 43 && (every_digit d && (leb 8 (length d) && leb (length d) 15))

is_accepted_lem : (n : Text) → (validate_cleaned n === []) ≡ is_accepted n
unfolding validate_cleaned
is_accepted_lem [] = refl
is_accepted_lem (c ∷ []) = ground arith
is_accepted_lem (c ∷ d ∷ ds) = ground arith

-- A number passes the check just when what is left of it without white space, hyphens and brackets is
-- a plus followed by 8 to 15 digits, or is nothing: a number of hyphens only passes.
pub validate_phone_lem : (num : Text) → (validate_phone num === []) ≡ is_accepted (cleaned num)
unfolding validate_phone
validate_phone_lem num = is_accepted_lem (cleaned num)
