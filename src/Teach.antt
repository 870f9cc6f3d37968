-- ===== src/Teach.antt =====
-- The handlers of frontend/src/app/(dashboard)/teach/page.tsx. Each handler is a part up to its
-- `await` and a part behind it; what the second part reads of the page is what the first part read.
pub mod Loading
use noant.Base.{
  ℕ, ◌+◌, ◌*◌, ltb, ◌==◌, Text, codes, ◌===◌, ends_with, Bool, true, false, not, ◌&&◌, ◌||◌, Option,
  none, some, List, [], ◌∷◌, if◌then◌else◌,
}

pub record QaPair : Type 0 where
  pub id : Text
  pub category_id : Text
  pub question : Text
  pub answer : Text

pub data Endpoint : Type 0 where
  categories unknown_questions csv_upload unknown_clear qa : Endpoint
  category_qa category qa_pair train ignore : Text → Endpoint

pub data Effect : Type 0 where
  asks : Endpoint → Effect
  toast_success toast_error : Text → Effect

-- The requests of the handlers, each with what follows it. `load_qas` is `loadCategoryQAs`.
pub data Job : Type 0 where
  upload : (selected : Option Text) → Job
  trains : (selected : Option Text) (category_id : Text) → Job
  ignores clears creates_category : Job
  creates_pair : (selected : Option Text) (category_id : Text) → Job
  updates_pair deletes_pair deletes_category : (selected : Option Text) → Job

-- `selected_category` is the id of the category, `edit_qa_pair` that of the pair. `log` has the newest
-- effect first.
pub record Teach : Type 0 where
  pub ignore_id : Text
  pub show_ignore : Bool
  pub ignore_loading : Bool
  pub clear_gaps_confirm_open : Bool
  pub clear_gaps_loading : Bool
  pub progress : ℕ
  pub uploading : Bool
  pub csv_modal_open : Bool
  pub selected_category : Option Text
  pub category_qas : List QaPair
  pub category_qa_loading : Bool
  pub add_cat_open : Bool
  pub add_cat_loading : Bool
  pub add_qa_open : Bool
  pub add_qa_loading : Bool
  pub edit_qa_open : Bool
  pub edit_qa_pair : Option Text
  pub edit_qa_loading : Bool
  pub confirm_delete_cat_open : Bool
  pub delete_cat_loading : Bool
  pub log : List Effect

abbrev pub does : Effect → Teach → Teach
does e s = record s { log = e ∷ s.log }

-- `getCategories` and `getUnknown`
abbrev pub reload_categories : Teach → Teach
reload_categories s = does (asks categories) s

abbrev pub reload_unknown : Teach → Teach
reload_unknown s = does (asks unknown_questions) s

-- `loadCategoryQAs`, and what follows its request, `none` being a failure.
pub load_category_qas : Text → Teach → Teach
load_category_qas id s = does (asks (category_qa id)) (record s { category_qa_loading = true })

pub category_qas_loaded : Option (List QaPair) → Teach → Teach
category_qas_loaded none s =
    does (toast_error (codes "Failed to load category questions"))
      (record s { category_qa_loading = false })
category_qas_loaded (some qas) s = record s { category_qas = qas; category_qa_loading = false }

pub handle_category_click : Text → Teach → Teach
unfolding load_category_qas
handle_category_click id s = load_category_qas id (record s { selected_category = some id })

pub record File : Type 0 where
  pub name : Text
  pub size : ℕ

pub handle_upload : File → Teach → Teach
handle_upload file s =
    if not (ends_with (codes ".csv") file.name)
    then does (toast_error (codes "Please upload a CSV file")) s
    else if ltb (10 * 1024 * 1024) file.size
    then does (toast_error (codes "File too large. Maximum size is 10MB")) s
    else does (asks csv_upload) (record s { uploading = true; progress = 60 })

-- `categoryId || 'default'` is in the body of the request.
pub handle_train : Text → Teach → Teach
handle_train id s = does (asks (train id)) s

pub handle_ignore_click : Text → Teach → Teach
handle_ignore_click id s = record s { ignore_id = id; show_ignore = true }

pub handle_ignore_confirm : Teach → Teach
handle_ignore_confirm s =
    if s.ignore_id === []
    then s
    else does (asks (ignore s.ignore_id)) (record s { ignore_loading = true })

pub handle_clear_gaps_click : Teach → Teach
handle_clear_gaps_click s = record s { clear_gaps_confirm_open = true }

pub handle_clear_gaps_confirm : Teach → Teach
handle_clear_gaps_confirm s = does (asks unknown_clear) (record s { clear_gaps_loading = true })

pub handle_create_category : Teach → Teach
handle_create_category s = does (asks categories) (record s { add_cat_loading = true })

pub handle_create_qa_pair : Teach → Teach
handle_create_qa_pair s = does (asks qa) (record s { add_qa_loading = true })

pub handle_edit_qa_click : Text → Teach → Teach
handle_edit_qa_click id s = record s { edit_qa_pair = some id; edit_qa_open = true }

pub handle_update_qa_pair : Teach → Teach
handle_update_qa_pair s = elim s.edit_qa_pair [
  | none ↦ s
  | some id ↦ does (asks (qa_pair id)) (record s { edit_qa_loading = true })
]

pub handle_delete_qa_pair : Text → Teach → Teach
handle_delete_qa_pair id s = does (asks (qa_pair id)) s

pub handle_delete_category : Teach → Teach
handle_delete_category s = elim s.selected_category [
  | none ↦ s
  | some id ↦ does (asks (category id)) (record s { delete_cat_loading = true })
]

-- `if (selectedCategory) loadCategoryQAs(selectedCategory.id)`
pub load_selected : Option Text → Teach → Teach
unfolding load_category_qas
load_selected none s = s
load_selected (some id) s = load_category_qas id s

-- `if (selectedCategory && selectedCategory.id === catId) loadCategoryQAs(catId)`
pub load_if_selected : Option Text → Text → Teach → Teach
unfolding load_category_qas
load_if_selected none id s = s
load_if_selected (some j) id s = if j === id then load_category_qas id s else s

-- The body of the `try` of each job behind its request; for an upload, up to its timer, and without
-- the count in its toast.
pub succeeded : Job → Teach → Teach
unfolding load_selected load_if_selected
succeeded (upload selected) s =
    does (toast_success (codes "Training complete")) (record s { progress = 100 })
succeeded (trains selected id) s =
    load_if_selected selected id (
      reload_categories
        (reload_unknown (does (toast_success (codes "AI trained successfully!")) s)))
succeeded ignores s = reload_unknown (does (toast_success (codes "Question dismissed")) s)
succeeded clears s =
    record (reload_unknown (does (toast_success (codes "All AI gaps cleared successfully")) s)) {
      clear_gaps_confirm_open = false;
    }
succeeded creates_category s =
    reload_categories
      (record (does (toast_success (codes "Category created!")) s) { add_cat_open = false })
succeeded (deletes_pair selected) s =
    load_selected selected (reload_categories (does (toast_success (codes "Q&A pair deleted!")) s))
succeeded (creates_pair selected id) s = load_if_selected selected id (
    reload_categories
      (record (does (toast_success (codes "Trained Q&A added!")) s) { add_qa_open = false }))
succeeded (updates_pair selected) s = load_selected selected (
    reload_categories (record (does (toast_success (codes "Q&A pair updated!")) s) {
      edit_qa_open = false;
      edit_qa_pair = none;
    }))
succeeded (deletes_category selected) s =
    reload_categories (record (does (toast_success (codes "Category and all Q&As deleted!")) s) {
      confirm_delete_cat_open = false;
      selected_category = none;
    })

-- The `catch`, with the text of its toast.
pub thrown : Text → Job → Teach → Teach
thrown message (upload selected) s = record (does (toast_error message) s) {
  uploading = false;
  progress = 0;
}
thrown message job s = does (toast_error message) s

-- The `finally`.
pub ended : Job → Teach → Teach
ended ignores s = record s { ignore_loading = false; show_ignore = false; ignore_id = [] }
ended clears s = record s { clear_gaps_loading = false }
ended creates_category s = record s { add_cat_loading = false }
ended (creates_pair selected id) s = record s { add_qa_loading = false }
ended (updates_pair selected) s = record s { edit_qa_loading = false }
ended (deletes_category selected) s = record s { delete_cat_loading = false }
ended _ s = s

-- `none` is a request that succeeds.
pub answered : Job → Option Text → Teach → Teach
unfolding succeeded thrown ended
answered job none s = ended job (succeeded job s)
answered job (some message) s = ended job (thrown message job s)

-- The timer of an upload that succeeded.
pub upload_timeout : Option Text → Teach → Teach
unfolding load_selected
upload_timeout selected s =
    load_selected selected
      (reload_categories (record s { uploading = false; progress = 0; csv_modal_open = false }))
