-- ===== src/Inventory.antt =====
-- The items of the shop: frontend/src/app/(dashboard)/inventory/page.tsx, the page and the form of
-- InventoryModal. The number inputs have the step 1 and the minimum 0, so prices and quantities are
-- natural numbers.
pub mod Page
pub mod Saved
pub mod Stats
use noant.Base.{
  ℕ, zero, suc, ◌+◌, ◌*◌, ◌==◌, leb, Text, codes, ◌===◌, Bool, true, false, not, ◌&&◌, ◌||◌, Option,
  none, some, List, [], ◌∷◌, if◌then◌else◌,
}

-- `type`; `bundle` is `package`.
pub data Kind : Type 0 where
  product service bundle : Kind

-- What the page reads of an item; `kind` is `type`.
pub record Item : Type 0 where
  pub id : Text
  pub kind : Kind
  pub name : Text
  pub description : Text
  pub price : ℕ
  pub min_price : Option ℕ
  pub stock_quantity : Option ℕ

-- What the form gives to `onSave`.
pub record Draft : Type 0 where
  pub id : Option Text
  pub kind : Kind
  pub name : Text
  pub description : Text
  pub price : ℕ
  pub min_price : Option ℕ
  pub stock_quantity : Option ℕ

-- The content of an input: the number of the item, or what was typed.
pub data Content : Type 0 where
  number : ℕ → Content
  typed : Text → Content

pub record Form : Type 0 where
  pub kind : Kind
  pub name : Text
  pub description : Text
  pub price : ℕ
  pub min_price : Content
  pub stock_quantity : Content

-- `item?.min_price || ''`
pub floor_of : Option ℕ → Content
floor_of none = typed []
floor_of (some zero) = typed []
floor_of (some (suc n)) = number (suc n)

-- `item?.stock_quantity ?? ''`
pub stock_of : Option ℕ → Content
stock_of none = typed []
stock_of (some n) = number n

-- The form as it is mounted.
pub open_form : Option Item → Form
unfolding floor_of stock_of
open_form none = record {
  kind = product;
  name = [];
  description = [];
  price = 0;
  min_price = typed [];
  stock_quantity = typed [];
}
open_form (some i) = record {
  kind = i.kind;
  name = i.name;
  description = i.description;
  price = i.price;
  min_price = floor_of i.min_price;
  stock_quantity = stock_of i.stock_quantity;
}

-- `form.min_price ? Number(form.min_price) : null`, where `to_number` is `Number` on a text.
pub read_floor : (Text → ℕ) → Content → Option ℕ
read_floor to_number (number zero) = none
read_floor to_number (number (suc n)) = some (suc n)
read_floor to_number (typed []) = none
read_floor to_number (typed (c ∷ cs)) = some (to_number (c ∷ cs))

-- `form.stock_quantity !== '' ? Number(form.stock_quantity) : null`
pub read_stock : (Text → ℕ) → Content → Option ℕ
read_stock to_number (number n) = some n
read_stock to_number (typed []) = none
read_stock to_number (typed (c ∷ cs)) = some (to_number (c ∷ cs))

pub id_of : Option Item → Option Text
id_of none = none
id_of (some i) = some i.id

-- `handleSubmit`: what it saves, if it saves.
pub handle_submit : (Text → ℕ) → Option Item → Form → Option Draft
unfolding read_floor read_stock id_of
handle_submit to_number item form =
    if form.name === [] || form.price == 0
    then none
    else some (record {
      id = id_of item;
      kind = form.kind;
      name = form.name;
      description = form.description;
      price = form.price;
      min_price = read_floor to_number form.min_price;
      stock_quantity = read_stock to_number form.stock_quantity;
    })

-- The four statistics. `items.reduce(…)` is a loop with its sum.
pub count_or_one : Option ℕ → ℕ
count_or_one none = 1
count_or_one (some zero) = 1
count_or_one (some (suc n)) = suc n

pub reduce : ℕ → List Item → ℕ
unfolding count_or_one
reduce sum [] = sum
reduce sum (i ∷ is) = reduce (sum + i.price * count_or_one i.stock_quantity) is

pub total_value : List Item → ℕ
unfolding reduce
total_value items = reduce 0 items

pub is_kind : Kind → Item → Bool
is_kind product i = elim i.kind [ product ↦ true | service ↦ false | bundle ↦ false ]
is_kind service i = elim i.kind [ product ↦ false | service ↦ true | bundle ↦ false ]
is_kind bundle i = elim i.kind [ product ↦ false | service ↦ false | bundle ↦ true ]

-- `items.filter(i => i.type === …).length`
pub count : Kind → List Item → ℕ
unfolding is_kind
count k [] = 0
count k (i ∷ is) = let rest = count k is in if is_kind k i then suc rest else rest
