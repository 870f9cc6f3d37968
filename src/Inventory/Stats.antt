-- ===== src/Inventory/Stats.antt =====
-- The total value of the items.
mod Tests
use noant.Base.{
  ℕ, zero, suc, ◌+◌, ◌*◌, Option, none, some, List, [], ◌∷◌, ◌≡◌, refl, sym, ap, ◌∙◌, arith,
}
use noant.Inventory.{Item, count_or_one, reduce, total_value}

-- What is in stock, and the prices of the items without a stock or with none left.
abbrev pub in_stock : Option ℕ → ℕ
in_stock none = 0
in_stock (some n) = n

abbrev pub unless_in_stock : ℕ → Option ℕ → ℕ
unless_in_stock price none = price
unless_in_stock price (some zero) = price
unless_in_stock price (some (suc n)) = 0

abbrev pub worth : List Item → ℕ
worth [] = 0
worth (i ∷ is) = i.price * in_stock i.stock_quantity + worth is

abbrev pub uncounted : List Item → ℕ
uncounted [] = 0
uncounted (i ∷ is) = unless_in_stock i.price i.stock_quantity + uncounted is

count_or_one_lem :
    (price : ℕ) (o : Option ℕ)
    → price * count_or_one o ≡ price * in_stock o + unless_in_stock price o
unfolding count_or_one
count_or_one_lem price none = omega arith
count_or_one_lem price (some zero) = omega arith
count_or_one_lem price (some (suc n)) = omega arith

reduce_lem : (sum : ℕ) (is : List Item) → reduce sum is ≡ sum + (worth is + uncounted is)
unfolding reduce
reduce_lem sum [] = omega arith
reduce_lem sum (i ∷ is) =
    let e = count_or_one_lem i.price i.stock_quantity in
    let h = reduce_lem (sum + i.price * count_or_one i.stock_quantity) is in omega arith

-- The total value is the worth of what is in stock together with the price, once, of each item that
-- has no stock or is out of stock.
pub total_value_lem : (is : List Item) → total_value is ≡ worth is + uncounted is
unfolding total_value
total_value_lem is = let h = reduce_lem 0 is in omega arith
