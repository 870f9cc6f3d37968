-- ===== src/Teach/Loading/Tests.antt =====
-- A pair that could not be saved.
use noant.Base.{codes, true, false, some, []}
use noant.Teach.{Teach, updates_pair, answered}
use noant.Teach.Loading.{IsSettled, answered-IsSettled}

abbrev editing : Teach
editing = record {
  ignore_id = [];
  show_ignore = false;
  ignore_loading = false;
  clear_gaps_confirm_open = false;
  clear_gaps_loading = false;
  progress = 0;
  uploading = false;
  csv_modal_open = false;
  selected_category = some (codes "k1");
  category_qas = [];
  category_qa_loading = false;
  add_cat_open = false;
  add_cat_loading = false;
  add_qa_open = false;
  add_qa_loading = false;
  edit_qa_open = true;
  edit_qa_pair = some (codes "q1");
  edit_qa_loading = true;
  confirm_delete_cat_open = false;
  delete_cat_loading = false;
  log = [];
}

answered-IsSettled_example :
    IsSettled
      (updates_pair (some (codes "k1")))
      (some (codes "offline"))
      editing
      (answered (updates_pair (some (codes "k1"))) (some (codes "offline")) editing)
answered-IsSettled_example =
    answered-IsSettled (updates_pair (some (codes "k1"))) (some (codes "offline")) editing
