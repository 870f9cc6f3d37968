-- ===== src/Base/Strings.antt =====
-- JavaScript strings as lists of code units, with the `String.prototype` operations of the client.
use Prim.Native.Nat.{ℕ, zero, suc}
use Prim.Native.Char.{code}
use Prim.Native.String.{String}
use mathlib.Core.Path.{◌≡◌, refl, ap}
use mathlib.Core.Bool.{Bool, true, false, ◌&&◌, ◌||◌}
use mathlib.Core.Logic.{◌↔◌, ◌≢◌}
use mathlib.Core.List.{List, [], ◌∷◌, ◌++◌}
use native.Mathlib.Omega.{arith}
use noant.Base.Tests.{◌==◌, ==_refl}
use noant.Base.Lists.{length}

abbrev pub Text : Type 0
Text = List ℕ

-- A literal of the source.
abbrev pub codes : String → Text
codes String.[] = []
codes (String.◌∷◌ c s) = code c ∷ codes s

infix 50 ◌===◌
abbrev pub ◌===◌ : Text → Text → Bool
[] === [] = true
[] === (d ∷ t) = false
(c ∷ s) === [] = false
(c ∷ s) === (d ∷ t) = c == d && s === t

-- `startsWith`, the prefix first.
abbrev pub starts_with : Text → Text → Bool
starts_with [] s = true
starts_with (c ∷ p) [] = false
starts_with (c ∷ p) (d ∷ s) = c == d && starts_with p s

-- `endsWith`, the suffix first.
abbrev pub ends_with : Text → Text → Bool
ends_with p [] = p === []
ends_with p (c ∷ s) = p === (c ∷ s) || ends_with p s

-- `includes`, the part that is looked for first.
abbrev pub includes : Text → Text → Bool
includes p [] = starts_with p []
includes p (c ∷ s) = starts_with p (c ∷ s) || includes p s

-- `slice(n)`
abbrev pub slice : ℕ → Text → Text
slice zero s = s
slice (suc n) [] = []
slice (suc n) (c ∷ s) = slice n s

pub ===_iff : (s t : Text) → ((s === t) ≡ true) ↔ (s ≡ t)
===_iff [] [] = (λ _. refl, λ _. refl)
===_iff [] (d ∷ t) = (λ h. cc, λ h. cc)
===_iff (c ∷ s) [] = (λ h. cc, λ h. cc)
===_iff (c ∷ s) (d ∷ t) = ground (arith, ===_iff s t)

pub ===_refl : (s : Text) → (s === s) ≡ true
===_refl s = (===_iff s s).1 refl

pub ===-eq-false : (s t : Text) → s ≢ t → (s === t) ≡ false
===-eq-false s t h = ground (arith, ===_iff s t)

-- Texts of different lengths differ.
pub ===_of_length : (s t : Text) → length s ≢ length t → (s === t) ≡ false
===_of_length s t h = ===-eq-false s t (λ e. h (ap length e))

pub starts_with-append : (p s : Text) → starts_with p (p ++ s) ≡ true
starts_with-append [] s = refl
starts_with-append (c ∷ p) s = rw ==_refl (starts_with-append p s)

pub slice-append : (p s : Text) → slice (length p) (p ++ s) ≡ s
slice-append [] s = refl
slice-append (c ∷ p) s = slice-append p s

pub ends_with-append : (p s : Text) → ends_with p (s ++ p) ≡ true
ends_with-append [] [] = refl
ends_with-append (c ∷ p) [] = rw (===_refl (c ∷ p))
ends_with-append p (c ∷ s) = ground (arith, ends_with-append p s)
