-- ===== src/Inventory/Page.antt =====
-- The state of the page and its handlers. A handler is a part up to its `await` and a part behind it.
use noant.Base.{
  ℕ, ◌+◌, ◌==◌, leb, Text, codes, ◌===◌, Bool, true, false, not, ◌&&◌, Option, none, some, List, [],
  ◌∷◌, if◌then◌else◌,
}
use noant.Inventory.{Item, Draft}

-- `inventory type` is the list, `[]` for every type.
pub data Effect : Type 0 where
  gets_inventory gets_search removes : Text → Effect
  posts puts : Draft → Effect
  toast_success toast_error : Text → Effect

-- An object that `useAPI` holds as its data; `object` tells it from those before.
pub record Data : Type 0 where
  pub object : ℕ
  pub items : List Item

pub record Inventory : Type 0 where
  pub data_of : Option Data
  pub objects : ℕ
  pub show_modal : Bool
  pub show_upgrade_modal : Bool
  pub editing_item : Option Item
  pub search_query : Text
  pub type_filter : Text
  pub log : List Effect

abbrev pub does : Effect → Inventory → Inventory
does e s = record s { log = e ∷ s.log }

pub items : Inventory → List Item
items s = elim s.data_of [ none ↦ [] | some d ↦ d.items ]

pub load_items : Inventory → Inventory
load_items s = does (gets_inventory s.type_filter) s

-- A chosen filter, with the effect on it.
pub set_type_filter : Text → Inventory → Inventory
unfolding load_items
set_type_filter t s = if t === s.type_filter then s else load_items (record s { type_filter = t })

-- The answer of the hook's `get`.
pub got : List Item → Inventory → Inventory
got is s = record s {
  data_of = some (record { object = s.objects; items = is });
  objects = s.objects + 1;
}

-- `trim` is that of the text.
pub handle_search : (Text → Text) → Inventory → Inventory
unfolding load_items
handle_search trim s =
    if trim s.search_query === [] then load_items s else does (gets_search s.search_query) s

-- The answer to a search that was begun with the data `seen`: it changes that object, which the page
-- shows when it is rendered next, if it is still its data.
pub searched : Option ℕ → Option (List Item) → Inventory → Inventory
searched seen none s = does (toast_error (codes "Search failed")) s
searched none (some is) s = s
searched (some n) (some is) s = elim s.data_of [
  | none ↦ s
  | some d ↦ if d.object == n then record s { data_of = some (record d { items = is }) } else s
]

-- `onSave`, which is `handleUpdate` while an item is edited and `handleCreate` otherwise.
pub save : Draft → Inventory → Inventory
save d s = elim s.editing_item [ none ↦ does (posts d) s | some i ↦ does (puts d) s ]

pub created : Bool → Inventory → Inventory
unfolding load_items
created false s = does (toast_error (codes "Failed to create item")) s
created true s =
    load_items (record (does (toast_success (codes "Item created")) s) { show_modal = false })

pub updated : Bool → Inventory → Inventory
unfolding load_items
updated false s = does (toast_error (codes "Failed to update item")) s
updated true s = load_items (record (does (toast_success (codes "Item updated")) s) {
  show_modal = false;
  editing_item = none;
})

-- `onConfirm` of `handleDelete`.
pub confirm_delete : Text → Inventory → Inventory
confirm_delete id s = does (removes id) s

pub deleted : Bool → Inventory → Inventory
unfolding load_items
deleted false s = does (toast_error (codes "Failed to delete item")) s
deleted true s = load_items (does (toast_success (codes "Item deleted")) s)

length : List Item → ℕ
length [] = 0
length (i ∷ is) = length is + 1

-- `user?.plan_id || user?.plan || 'free'`, a missing text being empty.
pub current_plan : (plan_id plan : Text) → Text
current_plan plan_id plan =
    if not (plan_id === []) then plan_id else if not (plan === []) then plan else codes "free"

-- The button that adds an item.
pub press_add : (plan_id plan : Text) → Inventory → Inventory
unfolding current_plan length items
press_add plan_id plan s =
    if current_plan plan_id plan === codes "free" && leb 10 (length (items s))
    then record s { show_upgrade_modal = true }
    else record s { editing_item = none; show_modal = true }

pub press_edit : Item → Inventory → Inventory
press_edit i s = record s { editing_item = some i; show_modal = true }

-- `onClose` of the form.
pub close_form : Inventory → Inventory
close_form s = record s { show_modal = false; editing_item = none }

pub close_upgrade : Inventory → Inventory
close_upgrade s = record s { show_upgrade_modal = false }
