-- ===== src/Inventory/Saved/Tests.antt =====
-- A product whose minimum price is 0.
use noant.Base.{codes, [], some, ◌≡◌}
use noant.Inventory.{Item, product, handle_submit, open_form}
use noant.Inventory.Saved.{draft_of, handle_submit-open_form}

abbrev shirt : Item
shirt = record {
  id = codes "i1";
  kind = product;
  name = codes "Shirt";
  description = [];
  price = 4000;
  min_price = some 0;
  stock_quantity = some 3;
}

handle_submit-open_form_example :
    handle_submit (λ t. 0) (some shirt) (open_form (some shirt)) ≡ some (draft_of shirt)
handle_submit-open_form_example = handle_submit-open_form (λ t. 0) shirt
