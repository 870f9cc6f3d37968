-- ===== src/Inventory/Stats/Tests.antt =====
-- One item in stock and one that is sold out.
use noant.Base.{codes, none, some, List, [], ◌∷◌, ◌≡◌}
use noant.Inventory.{Item, product, total_value}
use noant.Inventory.Stats.{total_value_lem}

abbrev stock : List Item
stock =
    record {
      id = codes "i1";
      kind = product;
      name = codes "Shirt";
      description = [];
      price = 4000;
      min_price = none;
      stock_quantity = some 3;
    }
    ∷ record {
      id = codes "i2";
      kind = product;
      name = codes "Cap";
      description = [];
      price = 1500;
      min_price = none;
      stock_quantity = some 0;
    }
    ∷ []

total_value_lem_test : total_value stock ≡ 13500
total_value_lem_test = total_value_lem stock
