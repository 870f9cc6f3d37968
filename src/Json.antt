-- ===== src/Json.antt =====
-- JavaScript values as the client reads them from JSON: `undefined`, truth, `||` and `?.`.
use noant.Base.{ℕ, Text, ◌===◌, ◌==◌, Bool, true, false, not, Option, none, some, [], if◌then◌else◌}

mutual
  pub data Value : Type 0 where
    undefined null : Value
    bool : Bool → Value
    num : ℕ → Value
    str : Text → Value
    arr : Items → Value
    obj : Fields → Value

  pub data Items : Type 0 where
    nil : Items
    cons : Value → Items → Items

  pub data Fields : Type 0 where
    end : Fields
    field : Text → Value → Fields → Fields

-- `if (v)`
unfoldable pub truthy : Value → Bool
truthy undefined = false
truthy null = false
truthy (bool b) = b
truthy (num n) = not (n == 0)
truthy (str s) = not (s === [])
truthy _ = true

-- `a || b`
unfoldable pub or : Value → Value → Value
unfolding truthy
or a b = if truthy a then a else b

unfoldable pub find_field : Text → Fields → Value
find_field k end = undefined
find_field k (field j v fs) = if j === k then v else find_field k fs

-- `v.k`: `none` is the TypeError of a read on `null` or `undefined`.
unfoldable pub member : Value → Text → Option Value
unfolding find_field
member undefined k = none
member null k = none
member (obj fs) k = some (find_field k fs)
member _ k = some undefined

-- `v?.k`
unfoldable pub member? : Value → Text → Value
unfolding find_field
member? (obj fs) k = find_field k fs
member? _ k = undefined
