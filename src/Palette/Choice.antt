-- ===== src/Palette/Choice.antt =====
-- The entry that the keys have chosen.
mod Tests
use noant.Base.{
  ℕ, zero, suc, ◌+◌, ◌-◌, ◌<◌, ◌%◌, ltb, ◌==◌, ==_iff, codes, Text, ◌===◌, length, get_elem?, Bool,
  true, false, not, Option, none, some, List, [], ◌∷◌, if_intro, if◌then◌else◌, ◌≡◌, ◌≢◌, ◌⊎◌, inl,
  inr, refl, subst, sym, ap, ◌∙◌, arith,
}
use noant.Palette.{
  CommandItem, Palette, Event, ctrl_k, escape, arrow_down, arrow_up, enter, backdrop, tab,
  type_text, hover, click, set_open, remainder, next_index, previous_index, act, act_at,
  selected_item, set_search, filtered, press, step, run, initial,
}

-- An entry of a list of `n`; NaN for an empty one only.
abbrev pub InRange : Option ℕ → ℕ → Type 0
InRange none n = n ≡ 0
InRange (some i) n = (n ≡ 0) ⊎ (i < n)

below : (a n : ℕ) → n == 0 ≡ false → a % n < n
below a zero e = ground arith
below a (suc n) e = omega arith

remainder-InRange : (a n : ℕ) → InRange (remainder a n) n
unfolding remainder
remainder-InRange a n =
    if_intro (λ o. InRange o n) (n == 0) none (some (a % n)) (λ e. (==_iff n 0).0 e)
      (λ e. inr (below a n e))

next_index-InRange : (o : Option ℕ) (n : ℕ) → InRange o n → InRange (next_index o n) n
unfolding next_index
next_index-InRange none n h = h
next_index-InRange (some i) n h = remainder-InRange (i + 1) n

previous_index-InRange : (o : Option ℕ) (n : ℕ) → InRange o n → InRange (previous_index o n) n
unfolding previous_index
previous_index-InRange none n h = h
previous_index-InRange (some i) n h = remainder-InRange (i + n - 1) n

first-InRange : (n : ℕ) → InRange (some 0) n
first-InRange zero = inl refl
first-InRange (suc n) = inr (omega arith)

module _ (lower : Text → Text) where
  abbrev pub IsValid : Palette → Type 0
  IsValid p = InRange p.selected_index (length (filtered lower p.search))

  act_at-IsValid : (o : Option CommandItem) (p : Palette) → IsValid p → IsValid (act_at o p)
  unfolding act_at act set_open
  act_at-IsValid none p v = v
  act_at-IsValid (some item) p v = at item.path
    where
      at :
          (x : Option Text)
          → IsValid (elim x [
            | none ↦ record p { log = codes "/login" ∷ p.log }
            | some path ↦ set_open false (record p { log = path ∷ p.log })
          ])
      at none = v
      at (some path) = v

  set_open-IsValid : (b : Bool) (p : Palette) → IsValid p → IsValid (set_open b p)
  unfolding set_open
  set_open-IsValid true p v = first-InRange _
  set_open-IsValid false p v = v

  press-IsValid : (e : Event) (p : Palette) → IsValid p → IsValid (press lower e p)
  unfolding press set_search
  press-IsValid escape p v = set_open-IsValid false p v
  press-IsValid backdrop p v = set_open-IsValid false p v
  press-IsValid arrow_down p v = next_index-InRange p.selected_index _ v
  press-IsValid arrow_up p v = previous_index-InRange p.selected_index _ v
  press-IsValid (tab true) p v = previous_index-InRange p.selected_index _ v
  press-IsValid (tab false) p v = next_index-InRange p.selected_index _ v
  press-IsValid enter p v = act_at-IsValid _ p v
  press-IsValid (type_text t) p v =
      if_intro IsValid (t === p.search) p (record p { search = t; selected_index = some 0 })
        (λ _. v) (λ _. first-InRange _)
  press-IsValid (hover i) p v =
      if_intro IsValid (ltb i (length (filtered lower p.search)))
        (record p { selected_index = some i }) p (λ e. inr (ground arith)) (λ _. v)
  press-IsValid (click i) p v = act_at-IsValid _ p v
  press-IsValid ctrl_k p v = v

  shown-IsValid :
      (e : Event) (p : Palette) → IsValid p → IsValid (if p.shows then press lower e p else p)
  shown-IsValid e p v =
      if_intro IsValid p.shows (press lower e p) p (λ _. press-IsValid e p v) (λ _. v)

  step-IsValid : (e : Event) (p : Palette) → IsValid p → IsValid (step lower e p)
  unfolding step
  step-IsValid ctrl_k p v = set_open-IsValid (not p.shows) p v
  step-IsValid escape p v = shown-IsValid escape p v
  step-IsValid backdrop p v = shown-IsValid backdrop p v
  step-IsValid arrow_down p v = shown-IsValid arrow_down p v
  step-IsValid arrow_up p v = shown-IsValid arrow_up p v
  step-IsValid (tab b) p v = shown-IsValid (tab b) p v
  step-IsValid enter p v = shown-IsValid enter p v
  step-IsValid (type_text t) p v = shown-IsValid (type_text t) p v
  step-IsValid (hover i) p v = shown-IsValid (hover i) p v
  step-IsValid (click i) p v = shown-IsValid (click i) p v

  run_from-IsValid : (es : List Event) (p : Palette) → IsValid p → IsValid (run lower es p)
  unfolding run
  run_from-IsValid [] p v = v
  run_from-IsValid (e ∷ es) p v = run_from-IsValid es (step lower e p) (step-IsValid e p v)

  run-InRange :
      (es : List Event)
      → let p = run lower es initial in InRange p.selected_index (length (filtered lower p.search))
  run-InRange es = run_from-IsValid es initial (first-InRange _)

nothing_below : (n : ℕ) → n < 0 → ⊥
nothing_below n h = omega arith

get_elem?_below :
    (i : ℕ) (l : List CommandItem) → i < length l → (x : CommandItem) × (get_elem? l i ≡ some x)
get_elem?_below i [] h = elim (nothing_below i h) [ ]
get_elem?_below zero (x ∷ l) h = (x, refl)
get_elem?_below (suc i) (x ∷ l) h = get_elem?_below i l (omega arith)

not_empty : (n : ℕ) → suc n ≡ 0 → ⊥
not_empty n h = omega arith

selected_item_of_some :
    (o : Option ℕ) (x : CommandItem) (l : List CommandItem)
    → InRange o (length (x ∷ l))
    → (y : CommandItem) × (selected_item o (x ∷ l) ≡ some y)
unfolding selected_item
selected_item_of_some none x l r = elim (not_empty (length l) r) [ ]
selected_item_of_some (some i) x l (inl r) = elim (not_empty (length l) r) [ ]
selected_item_of_some (some i) x l (inr r) = get_elem?_below i (x ∷ l) r

length-log-act : (y : CommandItem) (p : Palette) → length (act y p).log ≡ length p.log + 1
unfolding act set_open
length-log-act y p = at y.path
  where
    at :
        (x : Option Text)
        → length
            (elim x as (λ _. Palette) [
              | none ↦ record p { log = codes "/login" ∷ p.log }
              | some path ↦ set_open false (record p { log = path ∷ p.log })
            ]).log
          ≡ length p.log + 1
    at none = omega arith
    at (some path) = omega arith

length-log-press :
    (lower : Text → Text) (p : Palette) (x : CommandItem) (l : List CommandItem)
    → InRange p.selected_index (length (filtered lower p.search))
    → p.shows ≡ true
    → filtered lower p.search ≡ x ∷ l
    → length (step lower enter p).log ≡ length p.log + 1
unfolding step press act_at
length-log-press lower p x l v s f =
    let c =
      selected_item_of_some p.selected_index x l
        (subst (λ k. InRange p.selected_index (length k)) f v) in
    ap (λ b. length (if b then press lower enter p else p).log) s
    ∙ (ap (λ k. length (act_at (selected_item p.selected_index k) p).log) f
        ∙ (ap (λ o. length (act_at o p).log) c.1 ∙ length-log-act c.0 p))

-- After any sequence of events that leaves the palette open with an entry `x` first in the list,
-- Enter runs one entry.
pub length-log-enter :
    (lower : Text → Text) (es : List Event) (x : CommandItem) (l : List CommandItem)
    → (run lower es initial).shows ≡ true
    → filtered lower (run lower es initial).search ≡ x ∷ l
    → length (step lower enter (run lower es initial)).log ≡ length (run lower es initial).log + 1
length-log-enter lower es x l s f =
    length-log-press lower (run lower es initial) x l (run-InRange lower es) s f
