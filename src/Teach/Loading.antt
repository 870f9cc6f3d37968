-- ===== src/Teach/Loading.antt =====
-- What the answer of a request does to the page.
mod Tests
use noant.Base.{
  Text, ◌===◌, Bool, true, false, not, ◌&&◌, Option, none, some, List, [], ◌∷◌, if◌then◌else◌, ◌≡◌,
  refl, arith, if_intro,
}
use noant.Teach.{
  Job, upload, trains, ignores, clears, creates_category, deletes_pair, creates_pair, updates_pair,
  deletes_category, Teach, QaPair, load_category_qas, load_selected, load_if_selected, succeeded,
  thrown, ended, answered,
}

-- The spinner of a job, and its dialog; some jobs have none.
abbrev pub loading_of : Job → Teach → Bool
loading_of (upload selected) s = s.uploading
loading_of ignores s = s.ignore_loading
loading_of clears s = s.clear_gaps_loading
loading_of creates_category s = s.add_cat_loading
loading_of (creates_pair selected id) s = s.add_qa_loading
loading_of (updates_pair selected) s = s.edit_qa_loading
loading_of (deletes_category selected) s = s.delete_cat_loading
loading_of _ s = false

abbrev pub dialog_of : Job → Teach → Bool
dialog_of (upload selected) s = s.csv_modal_open
dialog_of ignores s = s.show_ignore
dialog_of clears s = s.clear_gaps_confirm_open
dialog_of creates_category s = s.add_cat_open
dialog_of (creates_pair selected id) s = s.add_qa_open
dialog_of (updates_pair selected) s = s.edit_qa_open
dialog_of (deletes_category selected) s = s.confirm_delete_cat_open
dialog_of _ s = false

abbrev pub is_upload : Job → Bool
is_upload (upload selected) = true
is_upload _ = false

abbrev pub is_dismissal : Job → Bool
is_dismissal ignores = true
is_dismissal _ = false

abbrev pub is_none : Option Text → Bool
is_none none = true
is_none (some t) = false

-- The page `t` behind the answer of `job` to the page `s`.
pub record IsSettled (job : Job) (answer : Option Text) (s t : Teach) : Type 0 where
  pub loading : loading_of job t ≡ (is_upload job && is_none answer && s.uploading)
  pub dialog : dialog_of job t ≡ (
      if is_none answer && not (is_upload job)
      then false
      else if is_dismissal job
      then false
      else dialog_of job s)
  pub qas : t.category_qas ≡ s.category_qas
  pub failed :
      is_none answer ≡ false
      → (t.selected_category ≡ s.selected_category)
        × (t.edit_qa_pair ≡ s.edit_qa_pair)
        × (t.category_qa_loading ≡ s.category_qa_loading)

-- A failure.
thrown-IsSettled :
    (job : Job) (message : Text) (s : Teach)
    → IsSettled job (some message) s (answered job (some message) s)
unfolding answered
thrown-IsSettled (upload selected) message s = ground arith
thrown-IsSettled (trains selected id) message s = ground arith
thrown-IsSettled ignores message s = ground arith
thrown-IsSettled clears message s = ground arith
thrown-IsSettled creates_category message s = ground arith
thrown-IsSettled (deletes_pair selected) message s = ground arith
thrown-IsSettled (creates_pair selected id) message s = ground arith
thrown-IsSettled (updates_pair selected) message s = ground arith
thrown-IsSettled (deletes_category selected) message s = ground arith

-- A success.
succeeded-IsSettled : (job : Job) (s : Teach) → IsSettled job none s (answered job none s)
unfolding answered
succeeded-IsSettled (upload selected) s = ground arith
succeeded-IsSettled (trains none id) s = ground arith
succeeded-IsSettled (trains (some j) id) s = ground arith
succeeded-IsSettled ignores s = ground arith
succeeded-IsSettled clears s = ground arith
succeeded-IsSettled creates_category s = ground arith
succeeded-IsSettled (deletes_pair none) s = ground arith
succeeded-IsSettled (deletes_pair (some j)) s = ground arith
succeeded-IsSettled (creates_pair none id) s = ground arith
succeeded-IsSettled (creates_pair (some j) id) s = ground arith
succeeded-IsSettled (updates_pair none) s = ground arith
succeeded-IsSettled (updates_pair (some j)) s = ground arith
succeeded-IsSettled (deletes_category selected) s = ground arith

-- When the request of a job is answered, the job's spinner is off and its dialog is closed by a success,
-- but for an upload, which leaves both to the timer that it starts; a failure turns the spinner off and
-- leaves the dialog as it was, but for the dismissal of a question, whose dialog is closed. Some jobs
-- have no spinner or no dialog. The pairs that are shown are the same, and a failure leaves the chosen
-- category, the edited pair and the spinner of the pairs.
pub answered-IsSettled :
    (job : Job) (answer : Option Text) (s : Teach) → IsSettled job answer s (answered job answer s)
answered-IsSettled job none s = succeeded-IsSettled job s
answered-IsSettled job (some message) s = thrown-IsSettled job message s
