-- ===== src/Api/Stream/Lines.antt =====
-- Cutting a text into its lines and the rest behind the last newline.
use noant.Base.{
  ℕ, ◌==◌, ==_iff, Text, false, Bool-cases, List, [], ◌∷◌, ◌++◌, ◌≡◌, ◌≢◌, refl, All, arith, inl,
  inr,
}
use noant.Api.Stream.{newline, prepend, split, pop}

abbrev pub cut : Text → List Text × Text
cut s = pop (split s)

abbrev push : ℕ → List Text × Text → List Text × Text
push c ([], r) = ([], c ∷ r)
push c (l ∷ ls, r) = ((c ∷ l) ∷ ls, r)

-- A text with `b` behind it.
abbrev pub glue : List Text × Text → Text → List Text × Text
glue p b = (p.0 ++ (cut (p.1 ++ b)).0, (cut (p.1 ++ b)).1)

pop-prepend : (c : ℕ) (ls : List Text) → pop (prepend c ls) ≡ push c (pop ls)
unfolding pop
pop-prepend c [] = refl
pop-prepend c (l ∷ []) = refl
pop-prepend c (l ∷ k ∷ ls) = refl

pop-cons : (l : Text) (ls : List Text) → ls ≢ [] → pop (l ∷ ls) ≡ (l ∷ (pop ls).0, (pop ls).1)
unfolding pop
pop-cons l [] h = absurd (h refl)
pop-cons l (k ∷ ls) h = refl

split-ne-nil : (s : Text) → split s ≢ []
unfolding split
split-ne-nil [] = λ e. cc
split-ne-nil (c ∷ s) = ground (arith, split-ne-nil s)

pub cut-newline : (s : Text) → cut (newline ∷ s) ≡ ([] ∷ (cut s).0, (cut s).1)
unfolding split
cut-newline s = pop-cons [] (split s) (split-ne-nil s)

cut-cons : (c : ℕ) (s : Text) → (c == newline) ≡ false → cut (c ∷ s) ≡ push c (cut s)
unfolding split
cut-cons c s h = rw (h, split) (pop-prepend c (split s))

glue-push :
    (c : ℕ) (p : List Text × Text) (b : Text)
    → (c == newline) ≡ false
    → glue (push c p) b ≡ push c (glue p b)
glue-push c ([], r) b h = cut-cons c (r ++ b) h
glue-push c (l ∷ ls, r) b h = refl

-- To cut a longer text, cut the part that is there and go on with what it leaves.
pub cut-append : (a b : Text) → cut (a ++ b) ≡ glue (cut a) b
unfolding split pop
cut-append [] b = refl
cut-append (c ∷ a) b = elim (Bool-cases (c == newline)) [
  | inl e ↦
      let same : c ≡ newline = (==_iff c newline).0 e in
      rw (same, cut-newline (a ++ b), cut-newline a, cut-append a b)
  | inr e ↦ rw (cut-cons c (a ++ b) e, cut-cons c a e, cut-append a b, glue-push c (cut a) b e)
]

-- No newline is left in the rest.
push-nil : (c : ℕ) (p : List Text × Text) → p.0 ≡ [] → (push c p).0 ≡ []
push-nil c ([], r) h = refl
push-nil c (l ∷ ls, r) h = cc

push-rest :
    (c : ℕ) (p : List Text × Text)
    → (cut p.1).0 ≡ []
    → (c == newline) ≡ false
    → (cut (push c p).1).0 ≡ []
push-rest c ([], r) h e = rw (cut-cons c r e) (push-nil c (cut r) h)
push-rest c (l ∷ ls, r) h e = h

pub cut-rest : (s : Text) → (cut (cut s).1).0 ≡ []
unfolding split pop
cut-rest [] = refl
cut-rest (c ∷ s) = elim (Bool-cases (c == newline)) [
  | inl e ↦ let same : c ≡ newline = (==_iff c newline).0 e in rw (same, cut-newline s) (cut-rest s)
  | inr e ↦ rw (cut-cons c s e) (push-rest c (cut s) (cut-rest s) e)
]

abbrev pub HasNoNewline : Text → Type 0
HasNoNewline = All (λ c. c ≢ newline)

-- One line more.
pub cut-line : (l s : Text) → HasNoNewline l → cut (l ++ newline ∷ s) ≡ (l ∷ (cut s).0, (cut s).1)
cut-line [] s h = cut-newline s
cut-line (c ∷ l) s h =
    let e : (c == newline) ≡ false = ground (arith, h.0) in
    rw (cut-cons c (l ++ newline ∷ s) e, cut-line l s h.1)
