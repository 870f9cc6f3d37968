-- ===== src/Widget/Address.antt =====
-- `getBaseUrl` of frontend/public/widget.js: the address of the API from those of the scripts.
mod Tests
use noant.Base.{
  ℕ, zero, suc, ◌==◌, Text, codes, ◌===◌, starts_with, includes, slice, length, append-nil, Bool,
  true, false, ◌&&◌, ◌||◌, if_intro, Bool-cases, inl, inr, List, [], ◌∷◌, ◌++◌, All, if◌then◌else◌,
  ◌≡◌, refl, sym, ap, ◌∙◌, subst, arith,
}

abbrev slash : ℕ
slash = 47

abbrev has_slash : Text → Bool
has_slash [] = false
has_slash (c ∷ s) = c == slash || has_slash s

-- `src.substring(0, src.lastIndexOf('/'))`
before_last_slash : Text → Text
before_last_slash [] = []
before_last_slash (c ∷ s) = let rest = before_last_slash s in if has_slash s then c ∷ rest else []

-- `base.replace(part, '')`
remove_first : Text → Text → Text
remove_first part [] = []
remove_first part (c ∷ s) =
    let rest = remove_first part s in
    if starts_with part (c ∷ s) then slice (length part) (c ∷ s) else c ∷ rest

abbrev pub widget_js : Text
widget_js = codes "widget.js"

abbrev pub widget_path : Text
widget_path = codes "/widget"

hosts_api : Text → Bool
hosts_api base = includes (codes "widget/noant") base || includes (codes "noant") base

pub get_base_url : List Text → Text
unfolding before_last_slash remove_first hosts_api
get_base_url [] = []
get_base_url (src ∷ scripts) =
    let rest = get_base_url scripts in
    let base = before_last_slash src in
    if includes widget_js src && hosts_api base
    then remove_first widget_path base ++ codes "/api/v1"
    else rest

has_slash-append : (p s : Text) → has_slash s ≡ true → has_slash (p ++ s) ≡ true
has_slash-append [] s e = e
has_slash-append (c ∷ p) s e = ground (arith, has_slash-append p s e)

before_last_slash-append :
    (p s : Text) → has_slash s ≡ true → before_last_slash (p ++ s) ≡ p ++ before_last_slash s
unfolding before_last_slash
before_last_slash-append [] s e = refl
before_last_slash-append (c ∷ p) s e =
    rw (has_slash-append p s e) (ap (λ t. c ∷ t) (before_last_slash-append p s e))

includes-append : (q p s : Text) → includes q s ≡ true → includes q (p ++ s) ≡ true
includes-append q [] s e = e
includes-append q (c ∷ p) s e = ground (arith, includes-append q p s e)

remove_first-absent : (q s : Text) → includes q s ≡ false → remove_first q s ≡ s
unfolding remove_first
remove_first-absent q [] e = refl
remove_first-absent q (c ∷ s) e = ground (arith, remove_first-absent q s)

base_of_host : (p : Text) → before_last_slash (p ++ codes "/widget.js") ≡ p
unfolding before_last_slash
base_of_host p = before_last_slash-append p (codes "/widget.js") refl ∙ append-nil p

hosts_api_of_noant : (p : Text) → includes (codes "noant") p ≡ true → hosts_api p ≡ true
unfolding hosts_api
hosts_api_of_noant p h = or_true (includes (codes "widget/noant") p) h
  where
    or_true : (a : Bool) {b : Bool} → b ≡ true → (a || b) ≡ true
    or_true true e = refl
    or_true false e = e

-- A script whose address is `p/widget.js`, where `p` has `noant` in it and not `/widget`, and
-- behind scripts that are no `widget.js`, makes the address of the API `p/api/v1`.
pub get_base_url_of_host :
    (p : Text) (scripts others : List Text)
    → All (λ (s : Text). includes widget_js s ≡ false) others
    → includes (codes "noant") p ≡ true
    → includes widget_path p ≡ false
    → get_base_url (others ++ (p ++ codes "/widget.js") ∷ scripts) ≡ p ++ codes "/api/v1"
unfolding get_base_url
get_base_url_of_host p scripts [] n h w =
    rw (includes-append widget_js p (codes "/widget.js") refl) (
      rw (base_of_host p) (
        rw (hosts_api_of_noant p h)
          (ap (λ t. t ++ codes "/api/v1") (remove_first-absent widget_path p w))))
get_base_url_of_host p scripts (s ∷ others) n h w =
    ap
      (λ b.
        if b && hosts_api (before_last_slash s)
        then remove_first widget_path (before_last_slash s) ++ codes "/api/v1"
        else get_base_url (others ++ (p ++ codes "/widget.js") ∷ scripts))
      n.0
    ∙ get_base_url_of_host p scripts others n.1 h w
