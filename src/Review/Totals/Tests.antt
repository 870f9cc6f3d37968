-- ===== src/Review/Totals/Tests.antt =====
-- Three questions, the first and the last selected.
use noant.Base.{ℕ, ◌+◌, codes, length, true, false, [], ◌∷◌, List, ◌≡◌, refl}
use noant.Review.{Question, Review, pending, question_trained}
use noant.Review.Totals.{
  Event, toggles, selects_all, trains_batch, ignores_batch, step, run, IsCounted, run-IsCounted,
  ignores_batch-question_trained,
}

abbrev pub question : ℕ → Question
question n = record { id = n ∷ []; suggested_answer = []; category_id = codes "default" }

abbrev pub shown : Review
shown = record {
  tab = pending;
  questions = question 1 ∷ question 2 ∷ question 3 ∷ [];
  counted = 40;
  taken = 0;
  loading = false;
  load_more_loading = false;
  offset = 25;
  selected = (1 ∷ []) ∷ (3 ∷ []) ∷ [];
  batch_answer = codes "Yes.";
  batch_category = codes "default";
  show_batch_form = true;
  batching = false;
  log = [];
}

shown-IsCounted : IsCounted 3 shown
shown-IsCounted = record {
  distinct = (refl, (refl, (refl, tt)));
  chosen = (refl, (refl, tt));
  shown = (refl, (refl, tt));
  sum = refl;
}

abbrev batches : List Event
batches = toggles 1 ∷ toggles 0 ∷ ignores_batch false ∷ trains_batch true ∷ selects_all ∷ []

run-IsCounted_example : IsCounted 3 (run batches shown)
run-IsCounted_example = run-IsCounted batches 3 shown shown-IsCounted

ignores_batch-question_trained_test :
    let t = step (ignores_batch true) (question_trained (3 ∷ []) true shown) in
    length t.questions + t.taken ≡ 4
ignores_batch-question_trained_test =
    ignores_batch-question_trained 3 (3 ∷ []) shown shown-IsCounted refl
