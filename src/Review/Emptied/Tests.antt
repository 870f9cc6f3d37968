-- ===== src/Review/Emptied/Tests.antt =====
-- Three questions of forty.
use noant.Base.{true, false, [], ◌≡◌, refl}
use noant.Review.{Review, has_load_more, says_none}
use noant.Review.Totals.{selects_all, ignores_batch, step}
use noant.Review.Totals.Tests.{shown}
use noant.Review.Emptied.{ignores_batch-selects_all}

abbrev unselected : Review
unselected = record shown { selected = [] }

ignores_batch-selects_all_example :
    let t = step (ignores_batch true) (step selects_all unselected) in
    (says_none t ≡ true) × (has_load_more t ≡ false) × (t.counted ≡ 40) × (t.taken ≡ 3)
ignores_batch-selects_all_example =
    ignores_batch-selects_all unselected (refl, (refl, (refl, tt))) refl refl refl
