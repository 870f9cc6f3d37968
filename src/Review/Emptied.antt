-- ===== src/Review/Emptied.antt =====
-- What the page shows when all of it is taken away.
mod Tests
use noant.Base.{
  ℕ, ◌+◌, ◌==◌, length, keep_if, Bool, true, false, not, List, [], ◌≡◌, refl, sym, ap, ◌∙◌, subst,
  arith, if_intro,
}
use noant.Review.{
  Review, ids, cannot_ignore, select_all, handle_batch_ignore, batch_ignored, has_load_more,
  says_none,
}
use noant.Review.Sets.{
  has, from_list, without, Distinct, Within_refl, without-eq-nil, from_list_lem,
}
use noant.Review.Totals.{ids-keep_if, length-ids, Event, selects_all, ignores_batch, step, run}

-- All the questions that are shown are selected, from none, and ignored: the page says that there are no
-- questions and has no control to load more, however many the server still has. No question is shown
-- twice, there is one at least, and the page does not load.
pub ignores_batch-selects_all :
    (s : Review)
    → Distinct (ids s.questions)
    → s.selected ≡ []
    → (length s.questions == 0) ≡ false
    → s.loading ≡ false
    → let t = step (ignores_batch true) (step selects_all s) in
      (says_none t ≡ true)
      × (has_load_more t ≡ false)
      × (t.counted ≡ s.counted)
      × (t.taken ≡ s.taken + length s.questions)
unfolding step handle_batch_ignore batch_ignored select_all says_none has_load_more
ignores_batch-selects_all s d n h l =
    let e : from_list [] (ids s.questions) ≡ ids s.questions =
      from_list_lem [] (ids s.questions) d in
    let f : ids (keep_if (λ q. not (has q.id (ids s.questions))) s.questions) ≡ [] =
      ids-keep_if (λ x. not (has x (ids s.questions))) s.questions
      ∙ without-eq-nil (ids s.questions) (ids s.questions) (Within_refl (ids s.questions)) in
    ground (
      arith,
      e,
      ap length f,
      length-ids s.questions,
      length-ids (keep_if (λ q. not (has q.id (ids s.questions))) s.questions),
    )
