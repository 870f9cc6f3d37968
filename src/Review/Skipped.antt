-- ===== src/Review/Skipped.antt =====
-- What the next page holds when questions have been trained in between.
mod Tests
use noant.Base.{
  ℕ, zero, suc, ◌+◌, ◌-◌, ◌≤◌, Text, ◌===◌, ===_iff, length, keep_if, All, Bool, true, false, not,
  ◌&&◌, ◌||◌, Option, none, some, List, [], ◌∷◌, ◌++◌, if◌then◌else◌, ◌≡◌, refl, sym, ap, ◌∙◌,
  subst, arith, append-nil, append_assoc, length-append,
}
use noant.Review.{
  Question, Ask, Answer, Review, limit, fetch_questions, fetched, ids, handle_load_more,
  handle_train, question_trained,
}
use noant.Review.Sets.{has}

-- The first `n` of a list, and the others.
abbrev pub take : ℕ → List Question → List Question
take zero qs = []
take (suc n) [] = []
take (suc n) (q ∷ qs) = q ∷ take n qs

abbrev pub drop : ℕ → List Question → List Question
drop zero qs = qs
drop (suc n) [] = []
drop (suc n) (q ∷ qs) = drop n qs

-- The questions without those of `gone`, in their order.
abbrev pub remaining : List Text → List Question → List Question
remaining gone qs = keep_if (λ q. not (has q.id gone)) qs

-- A server whose pending questions are `qs`, `limit` of them from the offset on.
abbrev pub page_of : List Question → Ask → Answer
page_of qs a = record { questions = some (take limit (drop a.offset qs)); total = some (length qs) }

-- The answer `train` for each of the ids, all with success.
pub train_all : (answer category_id : Text) → List Text → Review → Review
train_all answer category_id [] s = s
train_all answer category_id (id ∷ gone) s =
    train_all answer category_id gone
      (question_trained id true (handle_train id answer category_id s))

-- The request of `Load more`.
abbrev pub next_ask : Review → Ask
next_ask s = record { tab = s.tab; reset = false; offset = s.offset }

remaining_cons :
    (id : Text) (gone : List Text) (qs : List Question)
    → remaining gone (keep_if (λ q. not (q.id === id)) qs) ≡ remaining (id ∷ gone) qs
remaining_cons id gone [] = refl
remaining_cons id gone (q ∷ qs) =
    ground (arith, remaining_cons id gone qs, ===_iff q.id id, ===_iff id q.id)

remaining_nil : (qs : List Question) → remaining [] qs ≡ qs
remaining_nil [] = refl
remaining_nil (q ∷ qs) = ap (λ ps. q ∷ ps) (remaining_nil qs)

remaining-append :
    (gone : List Text) (ps qs : List Question)
    → remaining gone (ps ++ qs) ≡ remaining gone ps ++ remaining gone qs
remaining-append gone [] qs = refl
remaining-append gone (p ∷ ps) qs = ground (arith, remaining-append gone ps qs)

drop-append : (k n : ℕ) (ps qs : List Question) → length ps + k ≡ n → drop n (ps ++ qs) ≡ drop k qs
drop-append k n [] qs h = ap (λ m. drop m qs) (omega arith)
drop-append k zero (p ∷ ps) qs h = ground arith
drop-append k (suc n) (p ∷ ps) qs h = drop-append k n ps qs (omega arith)

take-append : (n : ℕ) (ps qs : List Question) → length ps ≡ n → take n (ps ++ qs) ≡ ps
take-append zero [] qs h = refl
take-append zero (p ∷ ps) qs h = ground arith
take-append (suc n) [] qs h = ground arith
take-append (suc n) (p ∷ ps) qs h = ap (λ rs. p ∷ rs) (take-append n ps qs (omega arith))

questions-train_all :
    (answer category_id : Text) (gone : List Text) (s : Review)
    → (train_all answer category_id gone s).questions ≡ remaining gone s.questions
unfolding question_trained handle_train train_all
questions-train_all answer category_id [] s = sym (remaining_nil s.questions)
questions-train_all answer category_id (id ∷ gone) s =
    questions-train_all answer category_id gone
      (question_trained id true (handle_train id answer category_id s))
    ∙ remaining_cons id gone s.questions

offset-train_all :
    (answer category_id : Text) (gone : List Text) (s : Review)
    → (train_all answer category_id gone s).offset ≡ s.offset
unfolding question_trained handle_train train_all
offset-train_all answer category_id [] s = refl
offset-train_all answer category_id (id ∷ gone) s =
    offset-train_all answer category_id gone
      (question_trained id true (handle_train id answer category_id s))

-- The first page of the questions `first` and `rest`, then `Load more`, when `gone` have been trained.
pub reviewed : (answer category_id : Text) → List Text → List Question → Review → Review
reviewed answer category_id gone qs s =
    let first_ask : Ask = record { tab = s.tab; reset = true; offset = 0 } in
    let trained =
      train_all answer category_id gone
        (fetched first_ask (some (page_of qs first_ask)) (fetch_questions true s)) in
    fetched (next_ask trained) (some (page_of (remaining gone qs) (next_ask trained)))
      (handle_load_more trained)

-- When questions of the first page are trained, each of them once, as many of the questions behind the
-- page are skipped: `Load more` brings those that come after them. Nothing of what is behind the page
-- is trained, and the first page is full.
pub questions-reviewed :
    (answer category_id : Text) (gone : List Text) (first rest : List Question) (s : Review)
    → length first ≡ limit
    → remaining gone rest ≡ rest
    → length (remaining gone first) + length gone ≡ limit
    → (reviewed answer category_id gone (first ++ rest) s).questions
      ≡ remaining gone first ++ take limit (drop (length gone) rest)
unfolding reviewed fetched handle_load_more fetch_questions
questions-reviewed answer category_id gone first rest s h k l =
    let ask : Ask = record { tab = s.tab; reset = true; offset = 0 } in
    let shown = fetched ask (some (page_of (first ++ rest) ask)) (fetch_questions true s) in
    let q : (train_all answer category_id gone shown).questions ≡ remaining gone first =
      questions-train_all answer category_id gone shown
      ∙ ap (remaining gone) (take-append limit first rest h) in
    let o : (train_all answer category_id gone shown).offset ≡ limit =
      offset-train_all answer category_id gone shown in
    let r : remaining gone (first ++ rest) ≡ remaining gone first ++ rest =
      remaining-append gone first rest ∙ ap (λ qs. remaining gone first ++ qs) k in
    let d : drop (train_all answer category_id gone shown).offset (remaining gone (first ++ rest))
        ≡ drop (length gone) rest =
      ap (λ n. drop n (remaining gone (first ++ rest))) o
      ∙ ap (drop limit) r
      ∙ drop-append (length gone) limit (remaining gone first) rest l in
    ap
      (λ qs.
        qs
        ++ take limit (
            drop (train_all answer category_id gone shown).offset (remaining gone (first ++ rest))))
      q
    ∙ ap (λ qs. remaining gone first ++ take limit qs) d
