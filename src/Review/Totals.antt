-- ===== src/Review/Totals.antt =====
-- Whether the total of the page counts the questions that its handlers take away.
pub mod Tests
use noant.Base.{
  ℕ, zero, suc, ◌+◌, ◌==◌, Text, ◌===◌, ===_refl, length, get_elem?, keep_if, Bool, true, false,
  not, Option, none, some, List, [], ◌∷◌, if◌then◌else◌, ◌≡◌, refl, sym, ap, ◌∙◌, subst, arith,
  if_intro, Option-cases, Bool-cases, inl, inr,
}
use noant.Review.{
  Question, Review, ids, cannot_train, cannot_ignore, toggle_select, select_all, deselect,
  handle_batch_train, batch_trained, handle_batch_ignore, batch_ignored, handle_train,
  question_trained,
}
use noant.Review.Sets.{
  has, add, delete, from_list, without, Distinct, Within, length-delete, delete-Distinct,
  length-without, without-delete, length_of_has, without-Distinct, add-Distinct, add-Within,
  delete-of-Within, Within_refl, from_list_lem,
}

-- What is done to the selection. `toggles n` is the box of the `n`-th card, and the two batches go from
-- the press to the answer, `true` when it succeeds, with nothing between.
pub data Event : Type 0 where
  toggles : ℕ → Event
  selects_all deselects : Event
  trains_batch ignores_batch : Bool → Event

abbrev pub toggled : Option Question → Review → Review
toggled none s = s
toggled (some q) s = toggle_select q.id s

unfoldable pub step : Event → Review → Review
step (toggles n) s = toggled (get_elem? s.questions n) s
step selects_all s = select_all s
step deselects s = deselect s
step (trains_batch ok) s =
    if cannot_train s
    then handle_batch_train s
    else batch_trained s.selected ok (handle_batch_train s)
step (ignores_batch ok) s =
    if cannot_ignore s
    then handle_batch_ignore s
    else batch_ignored s.selected ok (handle_batch_ignore s)

pub run : List Event → Review → Review
unfolding step
run [] s = s
run (e ∷ es) s = run es (step e s)

-- No question is shown twice, the selected ones are shown, each selected once, and those shown with
-- those taken away are `n`.
pub record IsCounted (n : ℕ) (s : Review) : Type 0 where
  pub distinct : Distinct (ids s.questions)
  pub chosen : Distinct s.selected
  pub shown : Within (ids s.questions) s.selected
  pub sum : length s.questions + s.taken ≡ n

pub ids-keep_if :
    (p : Text → Bool) (qs : List Question) → ids (keep_if (λ q. p q.id) qs) ≡ keep_if p (ids qs)
ids-keep_if p [] = refl
ids-keep_if p (q ∷ qs) = ground (arith, ids-keep_if p qs)

pub length-ids : (qs : List Question) → length (ids qs) ≡ length qs
length-ids [] = refl
length-ids (q ∷ qs) = ap suc (length-ids qs)

get_elem?-has :
    (qs : List Question) (n : ℕ) (q : Question) → get_elem? qs n ≡ some q → has q.id (ids qs) ≡ true
get_elem?-has [] n q h = ground arith
get_elem?-has (p ∷ qs) zero q h = ground (arith, ===_refl q.id)
get_elem?-has (p ∷ qs) (suc n) q h = ground (arith, get_elem?-has qs n q)

toggle_select-IsCounted :
    (n : ℕ) (id : Text) (s : Review)
    → has id (ids s.questions) ≡ true
    → IsCounted n s
    → IsCounted n (toggle_select id s)
unfolding toggle_select
toggle_select-IsCounted n id s h i =
    if_intro (λ t. IsCounted n (record s { selected = t })) (has id s.selected)
      (delete id s.selected) (add id s.selected)
      (λ e. record {
        distinct = i.distinct;
        chosen = delete-Distinct id s.selected i.chosen;
        shown = delete-of-Within id (ids s.questions) s.selected i.shown;
        sum = i.sum;
      })
      (λ e. record {
        distinct = i.distinct;
        chosen = add-Distinct id s.selected i.chosen;
        shown = add-Within id (ids s.questions) s.selected h i.shown;
        sum = i.sum;
      })

select_all-IsCounted : (n : ℕ) (s : Review) → IsCounted n s → IsCounted n (select_all s)
unfolding select_all
select_all-IsCounted n s i =
    if_intro (λ t. IsCounted n (record s { selected = t }))
      (length s.selected == length s.questions) [] (from_list [] (ids s.questions))
      (λ e. record { distinct = i.distinct; chosen = tt; shown = tt; sum = i.sum })
      (λ e.
        subst (λ t. IsCounted n (record s { selected = t }))
          (sym (from_list_lem [] (ids s.questions) i.distinct))
          (record {
            distinct = i.distinct;
            chosen = i.distinct;
            shown = Within_refl (ids s.questions);
            sum = i.sum;
          }))

-- The questions without the selected ones.
removed_lem :
    (n : ℕ) (s t : Review)
    → IsCounted n s
    → t.questions ≡ keep_if (λ q. not (has q.id s.selected)) s.questions
    → t.taken ≡ s.taken + length s.selected
    → t.selected ≡ []
    → IsCounted n t
removed_lem n s t i q k e =
    let f : ids t.questions ≡ without s.selected (ids s.questions) =
      ap ids q ∙ ids-keep_if (λ x. not (has x s.selected)) s.questions in
    record {
      distinct = subst Distinct (sym f) (without-Distinct s.selected (ids s.questions) i.distinct);
      chosen = subst Distinct (sym e) tt;
      shown = subst (Within (ids t.questions)) (sym e) tt;
      sum = omega (
        arith,
        i.sum,
        k,
        ap length f,
        length-ids t.questions,
        length-ids s.questions,
        length-without s.selected (ids s.questions) i.distinct i.chosen i.shown,
      );
    }

-- What of the page counts is as it was.
kept_lem :
    (n : ℕ) (s t : Review)
    → IsCounted n s
    → t.questions ≡ s.questions
    → t.taken ≡ s.taken
    → t.selected ≡ s.selected
    → IsCounted n t
kept_lem n s t i q k e = record {
  distinct = subst (λ qs. Distinct (ids qs)) (sym q) i.distinct;
  chosen = subst Distinct (sym e) i.chosen;
  shown =
      subst (λ qs. Within (ids qs) t.selected) (sym q)
        (subst (Within (ids s.questions)) (sym e) i.shown);
  sum = omega (arith, i.sum, k, ap length q);
}

batch_trained-IsCounted :
    (ok : Bool) (n : ℕ) (s t : Review)
    → IsCounted n s
    → t.questions ≡ s.questions
    → t.taken ≡ s.taken
    → t.selected ≡ s.selected
    → IsCounted n (batch_trained s.selected ok t)
unfolding batch_trained
batch_trained-IsCounted true n s t i q k e =
    removed_lem n s (batch_trained s.selected true t) i
      (ap (keep_if (λ p. not (has p.id s.selected))) q) (ap (λ m. m + length s.selected) k) refl
batch_trained-IsCounted false n s t i q k e =
    kept_lem n s (batch_trained s.selected false t) i q k e

batch_ignored-IsCounted :
    (ok : Bool) (n : ℕ) (s t : Review)
    → IsCounted n s
    → t.questions ≡ s.questions
    → t.taken ≡ s.taken
    → t.selected ≡ s.selected
    → IsCounted n (batch_ignored s.selected ok t)
unfolding batch_ignored
batch_ignored-IsCounted true n s t i q k e =
    removed_lem n s (batch_ignored s.selected true t) i
      (ap (keep_if (λ p. not (has p.id s.selected))) q) (ap (λ m. m + length s.selected) k) refl
batch_ignored-IsCounted false n s t i q k e =
    kept_lem n s (batch_ignored s.selected false t) i q k e

step-IsCounted : (e : Event) (n : ℕ) (s : Review) → IsCounted n s → IsCounted n (step e s)
unfolding step deselect handle_batch_train handle_batch_ignore
step-IsCounted (toggles k) n s i = elim (Option-cases (get_elem? s.questions k)) [
  | inl e ↦ subst (λ o. IsCounted n (toggled o s)) (sym e) i
  | inr (q, e) ↦
      subst (λ o. IsCounted n (toggled o s)) (sym e)
        (toggle_select-IsCounted n q.id s (get_elem?-has s.questions k q e) i)
]
step-IsCounted selects_all n s i = select_all-IsCounted n s i
step-IsCounted deselects n s i = record {
  distinct = i.distinct;
  chosen = tt;
  shown = tt;
  sum = i.sum;
}
step-IsCounted (trains_batch ok) n s i =
    let t : Review = handle_batch_train s in
    let batched : IsCounted n (batch_trained s.selected ok t) =
      if_intro (λ u. IsCounted n (batch_trained s.selected ok u)) (cannot_train s) s _
        (λ e. batch_trained-IsCounted ok n s s i refl refl refl)
        (λ e. batch_trained-IsCounted ok n s _ i refl refl refl) in
    if_intro (IsCounted n) (cannot_train s) t (batch_trained s.selected ok t)
      (λ e.
        if_intro (IsCounted n) (cannot_train s) s _ (λ _. i) (λ _. kept_lem n s _ i refl refl refl))
      (λ e. batched)
step-IsCounted (ignores_batch ok) n s i =
    let t : Review = handle_batch_ignore s in
    let batched : IsCounted n (batch_ignored s.selected ok t) =
      if_intro (λ u. IsCounted n (batch_ignored s.selected ok u)) (cannot_ignore s) s _
        (λ e. batch_ignored-IsCounted ok n s s i refl refl refl)
        (λ e. batch_ignored-IsCounted ok n s _ i refl refl refl) in
    if_intro (IsCounted n) (cannot_ignore s) t (batch_ignored s.selected ok t)
      (λ e.
        if_intro (IsCounted n) (cannot_ignore s) s _ (λ _. i)
          (λ _. kept_lem n s _ i refl refl refl))
      (λ e. batched)

-- Whatever is selected, and whichever batches are trained or ignored, with success or not, the total of
-- the page stays in step with its list: the questions shown and those subtracted from the total are as
-- many as before. The page begins with no question twice and with none selected.
pub run-IsCounted : (es : List Event) (n : ℕ) (s : Review) → IsCounted n s → IsCounted n (run es s)
unfolding run
run-IsCounted [] n s i = i
run-IsCounted (e ∷ es) n s i = run-IsCounted es n (step e s) (step-IsCounted e n s i)

-- A selected question that is trained on its own stays selected: the next batch that is ignored takes
-- it off the total again, so that the total is one too low for what is shown. The page has no question
-- twice, and the selected ones are shown, each selected once.
pub ignores_batch-question_trained :
    (n : ℕ) (id : Text) (s : Review)
    → IsCounted n s
    → has id s.selected ≡ true
    → let t = step (ignores_batch true) (question_trained id true s) in
      length t.questions + t.taken ≡ n + 1
unfolding step handle_batch_ignore batch_ignored question_trained
ignores_batch-question_trained n id s i h =
    let kept = keep_if (λ q. not (q.id === id)) s.questions in
    let left = keep_if (λ q. not (has q.id s.selected)) kept in
    let e : ids left ≡ without s.selected (ids s.questions) =
      ids-keep_if (λ x. not (has x s.selected)) kept
      ∙ ap (without s.selected) (ids-keep_if (λ x. not (x === id)) s.questions)
      ∙ without-delete id s.selected (ids s.questions) h in
    ground (
      arith,
      length_of_has id s.selected h,
      i.sum,
      ap length e,
      length-ids left,
      length-ids s.questions,
      length-without s.selected (ids s.questions) i.distinct i.chosen i.shown,
    )
