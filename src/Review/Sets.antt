-- ===== src/Review/Sets.antt =====
-- A `Set` of texts as the list of its members in the order of their insertion.
use noant.Base.{
  suc, ◌+◌, ◌==◌, Text, ◌===◌, ===_iff, ===_refl, length, keep_if, All, Bool, true, false, not,
  ◌&&◌, ◌||◌, List, [], ◌∷◌, ◌++◌, if◌then◌else◌, ◌≡◌, refl, sym, ap, ◌∙◌, subst, arith, if_intro,
  append-nil, append_assoc, Bool-cases, inl, inr,
}

abbrev pub has : Text → List Text → Bool
has x [] = false
has x (y ∷ ys) = y === x || has x ys

abbrev pub add : Text → List Text → List Text
add x s = if has x s then s else s ++ (x ∷ [])

abbrev pub delete : Text → List Text → List Text
delete x s = keep_if (λ y. not (y === x)) s

-- `new Set(xs)`, with the members so far.
abbrev pub from_list : List Text → List Text → List Text
from_list s [] = s
from_list s (x ∷ xs) = from_list (add x s) xs

-- `xs` without the members of `s`.
abbrev pub without : List Text → List Text → List Text
without s xs = keep_if (λ x. not (has x s)) xs

abbrev pub Distinct : List Text → Type 0
Distinct [] = Unit
Distinct (x ∷ xs) = (has x xs ≡ false) × Distinct xs

-- Each of `s` is one of `xs`.
abbrev pub Within : List Text → List Text → Type 0
Within xs s = All (λ x. has x xs ≡ true) s

has-append : (x : Text) (s t : List Text) → has x (s ++ t) ≡ (has x s || has x t)
has-append x [] t = refl
has-append x (y ∷ s) t = ground (arith, has-append x s t)

has-delete : (x y : Text) (s : List Text) → has x (delete y s) ≡ (has x s && not (x === y))
has-delete x y [] = refl
has-delete x y (z ∷ s) =
    ground (arith, has-delete x y s, ===_iff z x, ===_iff z y, ===_iff x y, ===_refl x, ===_refl z)

has-without : (y : Text) (s xs : List Text) → has y xs ≡ false → has y (without s xs) ≡ false
has-without y s [] h = refl
has-without y s (z ∷ xs) h = ground (arith, has-without y s xs)

delete_absent : (x : Text) (s : List Text) → has x s ≡ false → delete x s ≡ s
delete_absent x [] h = refl
delete_absent x (y ∷ s) h = ground (arith, delete_absent x s)

pub length-delete :
    (x : Text) (s : List Text) → Distinct s → has x s ≡ true → suc (length (delete x s)) ≡ length s
length-delete x [] d h = ground arith
length-delete x (y ∷ s) d h =
    ground (arith, length-delete x s d.1, delete_absent x s, ===_iff y x, d.0)

pub delete-Distinct : (x : Text) (s : List Text) → Distinct s → Distinct (delete x s)
delete-Distinct x [] d = d
delete-Distinct x (y ∷ s) d = elim (Bool-cases (y === x)) [
  | inl e ↦
      subst (λ b. Distinct (if not b then y ∷ delete x s else delete x s)) (sym e)
        (delete-Distinct x s d.1)
  | inr e ↦
      subst (λ b. Distinct (if not b then y ∷ delete x s else delete x s)) (sym e)
        (has-delete y x s ∙ ap (λ b. b && not (y === x)) d.0, delete-Distinct x s d.1)
]

without_suc : (x : Text) (s xs : List Text) → without (x ∷ s) xs ≡ without s (delete x xs)
without_suc x s [] = refl
without_suc x s (y ∷ xs) = ground (arith, without_suc x s xs, ===_iff x y, ===_iff y x, ===_refl x)

delete-Within :
    (x : Text) (xs s : List Text) → has x s ≡ false → Within xs s → Within (delete x xs) s
delete-Within x xs [] h w = w
delete-Within x xs (y ∷ s) h w =
    (ground (arith, has-delete y x xs, w.0), delete-Within x xs s (ground arith) w.1)

length-without-nil : (xs : List Text) → length (without [] xs) ≡ length xs
length-without-nil [] = refl
length-without-nil (x ∷ xs) = ap suc (length-without-nil xs)

-- Distinct members of a list without repetitions are taken out of it, each once.
pub length-without :
    (s xs : List Text)
    → Distinct xs
    → Distinct s
    → Within xs s
    → length (without s xs) + length s ≡ length xs
length-without [] xs dx ds w = omega (arith, length-without-nil xs)
length-without (x ∷ s) xs dx ds w = ground (
  arith,
  without_suc x s xs,
  length-delete x xs dx w.0,
  length-without s (delete x xs) (delete-Distinct x xs dx) ds.1 (delete-Within x xs s ds.0 w.1),
)

pub without-Distinct : (s xs : List Text) → Distinct xs → Distinct (without s xs)
without-Distinct s [] d = d
without-Distinct s (y ∷ xs) d = elim (Bool-cases (has y s)) [
  | inl e ↦
      subst (λ b. Distinct (if not b then y ∷ without s xs else without s xs)) (sym e)
        (without-Distinct s xs d.1)
  | inr e ↦
      subst (λ b. Distinct (if not b then y ∷ without s xs else without s xs)) (sym e)
        (has-without y s xs d.0, without-Distinct s xs d.1)
]

append_one-Distinct :
    (x : Text) (s : List Text) → has x s ≡ false → Distinct s → Distinct (s ++ (x ∷ []))
append_one-Distinct x [] h d = (refl, tt)
append_one-Distinct x (y ∷ s) h d = (
  ground (arith, has-append y s (x ∷ []), d.0, ===_iff y x, ===_iff x y, ===_refl x),
  append_one-Distinct x s (ground arith) d.1,
)

pub add-Distinct : (x : Text) (s : List Text) → Distinct s → Distinct (add x s)
add-Distinct x s d =
    if_intro Distinct (has x s) s (s ++ (x ∷ [])) (λ e. d) (λ e. append_one-Distinct x s e d)

pub delete-of-Within : (x : Text) (xs s : List Text) → Within xs s → Within xs (delete x s)
delete-of-Within x xs [] w = w
delete-of-Within x xs (y ∷ s) w = elim (Bool-cases (y === x)) [
  | inl e ↦
      subst (λ b. Within xs (if not b then y ∷ delete x s else delete x s)) (sym e)
        (delete-of-Within x xs s w.1)
  | inr e ↦
      subst (λ b. Within xs (if not b then y ∷ delete x s else delete x s)) (sym e)
        (w.0, delete-of-Within x xs s w.1)
]

Within-cons : (y : Text) (xs s : List Text) → Within xs s → Within (y ∷ xs) s
Within-cons y xs [] w = w
Within-cons y xs (x ∷ s) w = (ground (arith, w.0), Within-cons y xs s w.1)

pub Within_refl : (xs : List Text) → Within xs xs
Within_refl [] = tt
Within_refl (x ∷ xs) = (ground (arith, ===_refl x), Within-cons x xs xs (Within_refl xs))

pub without-eq-nil : (s xs : List Text) → Within s xs → without s xs ≡ []
without-eq-nil s [] w = refl
without-eq-nil s (x ∷ xs) w = ground (arith, without-eq-nil s xs w.1, w.0)

append-Distinct :
    (s : List Text) (x : Text) (xs : List Text) → Distinct (s ++ (x ∷ xs)) → has x s ≡ false
append-Distinct [] x xs d = refl
append-Distinct (y ∷ s) x xs d =
    ground
      (arith, append-Distinct s x xs d.1, has-append y s (x ∷ xs), d.0, ===_iff y x, ===_refl x)

-- The set of a list without repetitions is the list.
pub from_list_lem : (s xs : List Text) → Distinct (s ++ xs) → from_list s xs ≡ s ++ xs
from_list_lem s [] d = sym (append-nil s)
from_list_lem s (x ∷ xs) d =
    ap (λ b. from_list (if b then s else s ++ (x ∷ [])) xs) (append-Distinct s x xs d)
    ∙ from_list_lem (s ++ (x ∷ [])) xs (subst Distinct (sym (append_assoc s (x ∷ []) xs)) d)
    ∙ append_assoc s (x ∷ []) xs

Within-append :
    (xs s : List Text) (x : Text) → Within xs s → has x xs ≡ true → Within xs (s ++ (x ∷ []))
Within-append xs [] x w h = (h, tt)
Within-append xs (y ∷ s) x w h = (w.0, Within-append xs s x w.1 h)

pub add-Within : (x : Text) (xs s : List Text) → has x xs ≡ true → Within xs s → Within xs (add x s)
add-Within x xs s h w =
    if_intro (Within xs) (has x s) s (s ++ (x ∷ [])) (λ e. w) (λ e. Within-append xs s x w h)

-- A list without the members of a set is the same if one of them is deleted first.
pub without-delete :
    (x : Text) (s xs : List Text) → has x s ≡ true → without s (delete x xs) ≡ without s xs
without-delete x s [] h = refl
without-delete x s (y ∷ xs) h = ground (arith, without-delete x s xs, ===_iff y x)

pub length_of_has : (x : Text) (s : List Text) → has x s ≡ true → (length s == 0) ≡ false
length_of_has x [] h = ground arith
length_of_has x (y ∷ s) h = ground arith
