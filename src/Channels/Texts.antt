-- ===== src/Channels/Texts.antt =====
-- The texts of the page: what is shortened, and the last update.
pub mod Tests
use noant.Base.{
  ℕ, zero, suc, ◌+◌, ◌-◌, ◌≤◌, ltb, leb, ◌==◌, min, Text, codes, ◌===◌, ===_refl, ===_iff, slice,
  length, length-append, All, Bool, true, false, not, ◌&&◌, ◌||◌, List, [], ◌∷◌, ◌++◌,
  if◌then◌else◌, ◌≡◌, refl, sym, subst, arith, if_intro, Bool-cases, inl, inr,
}
use noant.Review.Sets.{has}
use noant.Channels.{Integration, first, last, shorten, is_before, candidate, last_updated}

length-first : (n : ℕ) (s : Text) → n ≤ length s → length (first n s) ≡ n
length-first zero s h = refl
length-first (suc n) [] h = omega arith
length-first (suc n) (c ∷ s) h = omega (arith, length-first n s)

length-slice : (n : ℕ) (s : Text) → n ≤ length s → length (slice n s) + n ≡ length s
length-slice zero s h = omega arith
length-slice (suc n) [] h = omega arith
length-slice (suc n) (c ∷ s) h = omega (arith, length-slice n s)

-- A text is shortened to its head, its tail and three dots, if it is longer than these: it then has as
-- many code units as they have, else it is as long as before. The tail is not empty.
pub length-shorten :
    (value : Text) (head tail : ℕ)
    → 1 ≤ tail
    → length (shorten value head tail) ≡ min (length value) (head + tail + 3)
unfolding shorten
length-shorten value head zero h = omega arith
length-shorten value head (suc tail) h =
    if_intro (λ t. length t ≡ min (length value) (head + suc tail + 3))
      (leb (length value) (head + suc tail + 3)) value _ (λ e. ground arith)
      (λ e.
        let long : head + suc tail + 3 ≤ length value = ground arith in
        omega (
          arith,
          length-append (first head value) (codes "..." ++ last (suc tail) value),
          length-first head value (omega arith),
          length-slice (length value - suc tail) value (omega arith),
        ))

is_before_irrefl : (s : Text) → is_before s s ≡ false
is_before_irrefl [] = refl
is_before_irrefl (c ∷ s) = ground (arith, is_before_irrefl s)

is_before_asymm : (s t : Text) → is_before s t ≡ true → is_before t s ≡ false
is_before_asymm [] t h = ground arith
is_before_asymm (c ∷ s) [] h = ground arith
is_before_asymm (c ∷ s) (d ∷ t) h = ground (arith, is_before_asymm s t)

is_before_trans :
    (r s t : Text) → is_before r s ≡ false → is_before s t ≡ false → is_before r t ≡ false
is_before_trans r s [] h k = refl
is_before_trans [] [] (e ∷ t) h k = ground arith
is_before_trans [] (d ∷ s) (e ∷ t) h k = ground arith
is_before_trans (c ∷ r) [] (e ∷ t) h k = ground arith
is_before_trans (c ∷ r) (d ∷ s) (e ∷ t) h k = ground (arith, is_before_trans r s t)

abbrev pub candidates : List Integration → List Text
candidates [] = []
candidates (i ∷ is) = candidate i ∷ candidates is

-- One turn of the loop.
abbrev later : Text → Text → Text
later updated c = if not (c === []) && is_before updated c then c else updated

later_lem :
    (updated c : Text)
    → (is_before (later updated c) updated ≡ false) × (is_before (later updated c) c ≡ false)
later_lem updated [] = (is_before_irrefl updated, refl)
later_lem updated (d ∷ c) =
    ground
      (arith, is_before_irrefl updated, is_before_irrefl (d ∷ c), is_before_asymm updated (d ∷ c))

last_updated_after :
    (updated : Text) (is : List Integration) → is_before (last_updated updated is) updated ≡ false
unfolding last_updated
last_updated_after updated [] = is_before_irrefl updated
last_updated_after updated (i ∷ is) =
    let next = later updated (candidate i) in
    is_before_trans (last_updated next is) next updated (last_updated_after next is)
      (later_lem updated (candidate i)).0

last_updated-All :
    (updated : Text) (is : List Integration)
    → All (λ c. is_before (last_updated updated is) c ≡ false) (candidates is)
unfolding last_updated
last_updated-All updated [] = tt
last_updated-All updated (i ∷ is) =
    let next = later updated (candidate i) in
    (
      is_before_trans (last_updated next is) next (candidate i) (last_updated_after next is)
          (later_lem updated (candidate i)).1,
      last_updated-All next is,
    )

last_updated-has :
    (updated : Text) (is : List Integration)
    → (last_updated updated is === updated || has (last_updated updated is) (candidates is)) ≡ true
unfolding last_updated
last_updated-has updated [] = ground (arith, ===_refl updated)
last_updated-has updated (i ∷ is) =
    elim (Bool-cases (not (candidate i === []) && is_before updated (candidate i))) [
      | inl e ↦
          subst
            (λ b.
              let last_one = last_updated (if b then candidate i else updated) is in
              (last_one === updated || (candidate i === last_one || has last_one (candidates is)))
              ≡ true)
            (sym e)
            (ground (
              arith,
              last_updated-has (candidate i) is,
              ===_iff (last_updated (candidate i) is) (candidate i),
              ===_iff (candidate i) (last_updated (candidate i) is),
            ))
      | inr e ↦
          subst
            (λ b.
              let last_one = last_updated (if b then candidate i else updated) is in
              (last_one === updated || (candidate i === last_one || has last_one (candidates is)))
              ≡ true)
            (sym e) (ground (arith, last_updated-has updated is))
    ]

-- The last update is the greatest of the dates that the integrations give, in the order of the texts:
-- none of them is behind it, and it is one of them, or empty.
pub last_updated_lem :
    (is : List Integration)
    → All (λ c. is_before (last_updated [] is) c ≡ false) (candidates is)
      × ((last_updated [] is === [] || has (last_updated [] is) (candidates is)) ≡ true)
last_updated_lem is = (last_updated-All [] is, last_updated-has [] is)
