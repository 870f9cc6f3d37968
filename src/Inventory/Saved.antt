-- ===== src/Inventory/Saved.antt =====
-- The form of an item that is opened and saved.
mod Tests
use noant.Base.{
  ℕ, zero, suc, ◌==◌, ◌===◌, Text, Bool, true, false, Option, none, some, [], ◌∷◌, ◌≡◌, refl, ap,
  ◌∙◌, ◌||◌, if◌then◌else◌, arith,
}
use noant.Inventory.{
  Item, Draft, Form, Content, number, typed, floor_of, stock_of, open_form, read_floor, read_stock,
  id_of, handle_submit,
}

-- A floor of 0 counts as none.
abbrev pub without_zero : Option ℕ → Option ℕ
without_zero none = none
without_zero (some zero) = none
without_zero (some (suc n)) = some (suc n)

abbrev pub draft_of : Item → Draft
draft_of i = record {
  id = some i.id;
  kind = i.kind;
  name = i.name;
  description = i.description;
  price = i.price;
  min_price = without_zero i.min_price;
  stock_quantity = i.stock_quantity;
}

read_floor-floor_of : (f : Text → ℕ) (o : Option ℕ) → read_floor f (floor_of o) ≡ without_zero o
unfolding read_floor floor_of
read_floor-floor_of f none = refl
read_floor-floor_of f (some zero) = refl
read_floor-floor_of f (some (suc n)) = refl

read_stock-stock_of : (f : Text → ℕ) (o : Option ℕ) → read_stock f (stock_of o) ≡ o
unfolding read_stock stock_of
read_stock-stock_of f none = refl
read_stock-stock_of f (some n) = refl

-- A form that is opened on an item and submitted without a change gives the item as it is, but for a
-- minimum price of 0, which it gives as none; an item without a name or with the price 0 is not
-- saved.
pub handle_submit-open_form :
    (to_number : Text → ℕ) (i : Item)
    → handle_submit to_number (some i) (open_form (some i))
      ≡ (if i.name === [] || i.price == 0 then none else some (draft_of i))
unfolding handle_submit open_form
handle_submit-open_form to_number i =
    ap
      (λ floor.
        if i.name === [] || i.price == 0
        then none
        else some (record {
          id = some i.id;
          kind = i.kind;
          name = i.name;
          description = i.description;
          price = i.price;
          min_price = floor;
          stock_quantity = read_stock to_number (stock_of i.stock_quantity);
        }))
      (read_floor-floor_of to_number i.min_price)
    ∙ ap
        (λ stock.
          if i.name === [] || i.price == 0
          then none
          else some (record (draft_of i) { stock_quantity = stock }))
        (read_stock-stock_of to_number i.stock_quantity)
