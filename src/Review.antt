-- ===== src/Review.antt =====
-- The page of the questions that the assistant could not answer:
-- frontend/src/app/(dashboard)/teach/unknown/page.tsx, `UnknownQuestionsPage` and `QuestionCard`. A
-- handler is a part up to its `await` and a part behind it, which takes what its closure read.
pub mod Sets
pub mod Totals
pub mod Emptied
pub mod Skipped
use noant.Base.{
  ℕ, ◌+◌, ltb, ◌==◌, Text, codes, ◌===◌, length, keep_if, Bool, true, false, not, ◌&&◌, ◌||◌,
  Option, none, some, List, [], ◌∷◌, ◌++◌, if◌then◌else◌,
}
use noant.Widget.{trim}
use noant.Review.Sets.{has, add, delete, from_list}

pub data Tab : Type 0 where
  pending trained ignored : Tab

pub record Question : Type 0 where
  pub id : Text
  pub suggested_answer : Text
  pub category_id : Text

-- A call of the list, as `fetchQuestions` makes it.
pub record Ask : Type 0 where
  pub tab : Tab
  pub reset : Bool
  pub offset : ℕ

pub record Answer : Type 0 where
  pub questions : Option (List Question)
  pub total : Option ℕ

pub data Effect : Type 0 where
  asks : Ask → Effect
  posts_train : (id answer category_id : Text) → Effect
  posts_ignore : (id : Text) → Effect
  posts_batch_train : (ids : List Text) (answer category_id : Text) → Effect
  posts_batch_ignore : (ids : List Text) → Effect
  toast_success toast_error : Text → Effect
  toast_trained toast_ignored : ℕ → Effect

-- `total` is `counted` less `taken`, which may be below 0: the number of the server, and what the
-- handlers have subtracted from it. `log` has the newest effect first.
pub record Review : Type 0 where
  pub tab : Tab
  pub questions : List Question
  pub counted : ℕ
  pub taken : ℕ
  pub loading : Bool
  pub load_more_loading : Bool
  pub offset : ℕ
  pub selected : List Text
  pub batch_answer : Text
  pub batch_category : Text
  pub show_batch_form : Bool
  pub batching : Bool
  pub log : List Effect

abbrev pub limit : ℕ
limit = 25

abbrev pub does : Effect → Review → Review
does e s = record s { log = e ∷ s.log }

-- `fetchQuestions` up to its `await`.
pub fetch_questions : Bool → Review → Review
fetch_questions true s =
    does (asks (record { tab = s.tab; reset = true; offset = 0 }))
      (record s { loading = true; offset = 0 })
fetch_questions false s = does (asks (record { tab = s.tab; reset = false; offset = s.offset })) s

-- `?? []` and `?? 0`
abbrev pub list_of : Option (List Question) → List Question
list_of none = []
list_of (some qs) = qs

abbrev pub number_of : Option ℕ → ℕ
number_of none = 0
number_of (some n) = n

-- `fetchQuestions` behind it; no answer is a request that threw.
pub fetched : Ask → Option Answer → Review → Review
fetched a none s =
    does (toast_error (codes "Failed to load questions"))
      (record s { loading = false; load_more_loading = false })
fetched a (some r) s = record s {
  questions = if a.reset then list_of r.questions else s.questions ++ list_of r.questions;
  counted = number_of r.total;
  taken = 0;
  offset = (if a.reset then 0 else a.offset) + limit;
  loading = false;
  load_more_loading = false;
}

-- The effect of `[tab]`.
pub select_tab : Tab → Review → Review
unfolding fetch_questions
select_tab t s =
    fetch_questions true (record s { tab = t; questions = []; offset = 0; selected = [] })

-- Where the page has its control `Load more`, and where it says that there are no questions.
pub has_load_more : Review → Bool
has_load_more s =
    not s.loading && not (length s.questions == 0) && ltb (length s.questions + s.taken) s.counted

pub says_none : Review → Bool
says_none s = not s.loading && length s.questions == 0

pub handle_load_more : Review → Review
unfolding fetch_questions
handle_load_more s = fetch_questions false (record s { load_more_loading = true })

abbrev pub ids : List Question → List Text
ids [] = []
ids (q ∷ qs) = q.id ∷ ids qs

pub handle_train : (id answer category_id : Text) → Review → Review
handle_train id answer category_id s = does (posts_train id answer category_id) s

-- The question leaves the page; `true` is a request that succeeded.
pub question_trained : Text → Bool → Review → Review
question_trained id true s =
    does (toast_success (codes "Question trained"))
      (record s { questions = keep_if (λ q. not (q.id === id)) s.questions; taken = s.taken + 1 })
question_trained id false s = does (toast_error (codes "Failed to train question")) s

pub handle_ignore : Text → Review → Review
handle_ignore id s = does (posts_ignore id) s

pub question_ignored : Text → Bool → Review → Review
question_ignored id true s = record s {
  questions = keep_if (λ q. not (q.id === id)) s.questions;
  taken = s.taken + 1;
}
question_ignored id false s = does (toast_error (codes "Failed to ignore question")) s

pub toggle_select : Text → Review → Review
toggle_select id s = record s {
  selected = if has id s.selected then delete id s.selected else add id s.selected;
}

pub select_all : Review → Review
select_all s = record s {
  selected = if length s.selected == length s.questions then [] else from_list [] (ids s.questions);
}

pub deselect : Review → Review
deselect s = record s { selected = [] }

-- The first lines of `handleBatchTrain` and `handleBatchIgnore`.
abbrev pub cannot_train : Review → Bool
cannot_train s = trim s.batch_answer === [] || length s.selected == 0

abbrev pub cannot_ignore : Review → Bool
cannot_ignore s = length s.selected == 0

pub handle_batch_train : Review → Review
handle_batch_train s =
    if cannot_train s
    then s
    else does (posts_batch_train s.selected (trim s.batch_answer) s.batch_category)
        (record s { batching = true })

-- `selected` is what the closure read.
pub batch_trained : (selected : List Text) → Bool → Review → Review
batch_trained selected true s = does (toast_trained (length selected)) (record s {
  questions = keep_if (λ q. not (has q.id selected)) s.questions;
  taken = s.taken + length selected;
  selected = [];
  batch_answer = [];
  show_batch_form = false;
  batching = false;
})
batch_trained selected false s =
    does (toast_error (codes "Batch train failed")) (record s { batching = false })

pub handle_batch_ignore : Review → Review
handle_batch_ignore s =
    if cannot_ignore s
    then s
    else does (posts_batch_ignore s.selected) (record s { batching = true })

pub batch_ignored : (selected : List Text) → Bool → Review → Review
batch_ignored selected true s = does (toast_ignored (length selected)) (record s {
  questions = keep_if (λ q. not (has q.id selected)) s.questions;
  taken = s.taken + length selected;
  selected = [];
  batching = false;
})
batch_ignored selected false s =
    does (toast_error (codes "Batch ignore failed")) (record s { batching = false })

-- `QuestionCard`, whose question is an argument of what it does.
pub record Card : Type 0 where
  pub training : Bool
  pub answer : Text
  pub category_id : Text
  pub saving : Bool

pub mount_card : Question → Card
mount_card q = record {
  training = false;
  answer = q.suggested_answer;
  category_id = if q.category_id === [] then codes "default" else q.category_id;
  saving = false;
}

-- `handleSubmit` up to its `await`: the call of `onTrain`, if it makes one.
pub handle_submit : Text → Card → Option (Review → Review) × Card
unfolding handle_train
handle_submit id c =
    if trim c.answer === []
    then (none, c)
    else (some (handle_train id (trim c.answer) c.category_id), record c { saving = true })

pub submitted : Card → Card
submitted c = record c { saving = false; training = false }
