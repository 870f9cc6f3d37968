-- ===== src/Push/Key.antt =====
-- The key as `atob` gets it.
mod Tests
use noant.Base.{
  ℕ, zero, suc, ◌+◌, ◌-◌, ◌%◌, ◌==◌, Text, Bool, true, false, ◌||◌, ◌&&◌, not, List, [], ◌∷◌, ◌++◌,
  length, length-append, map, ◌≡◌, refl, ◌∙◌, ap, arith, if◌then◌else◌,
}
use noant.Push.{repeat, replace, url_base64}

length-repeat : (n : ℕ) → length (repeat n) ≡ n
length-repeat zero = refl
length-repeat (suc n) = omega (arith, length-repeat n)

length-map-replace : (t : Text) → length (map replace t) ≡ length t
length-map-replace [] = refl
length-map-replace (c ∷ cs) = omega (arith, length-map-replace cs)

-- Neither `-` nor `_`.
abbrev pub is_standard : Text → Bool
is_standard [] = true
is_standard (c ∷ cs) = not (c == 45) && not (c == 95) && is_standard cs

is_standard-map : (t : Text) → is_standard (map replace t) ≡ true
is_standard-map [] = refl
is_standard-map (c ∷ cs) = ground (arith, is_standard-map cs)

-- The text is whole groups of four letters, without the two letters of the other alphabet.
pub record IsPadded (t : Text) : Type 0 where
  pub groups : length t % 4 ≡ 0
  pub standard : is_standard t ≡ true

padded_lem : (n : ℕ) → (n + (4 - n % 4) % 4) % 4 ≡ 0
padded_lem n = omega arith

-- Any key is padded to whole groups of four letters, and the two letters of the URL alphabet are
-- replaced.
pub url_base64-IsPadded : (key : Text) → IsPadded (url_base64 key)
unfolding url_base64
url_base64-IsPadded key =
    let p = repeat ((4 - length key % 4) % 4) in
    record {
      groups =
          ap (λ n. n % 4)
            (length-map-replace (key ++ p)
              ∙ length-append key p
              ∙ ap (λ n. length key + n) (length-repeat ((4 - length key % 4) % 4)))
          ∙ padded_lem (length key);
      standard = is_standard-map (key ++ p);
    }
