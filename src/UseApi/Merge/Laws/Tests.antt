-- ===== src/UseApi/Merge/Laws/Tests.antt =====
-- Two pages with a list and a count.
use noant.Base.{ℕ, Text, codes, [], ◌∷◌, ◌≡◌, refl}
use noant.Json.{num, arr, Items, nil, cons, Fields, end, field, find_field}
use noant.UseApi.Merge.{merge_value, merge_fields}
use noant.UseApi.Merge.Laws.{find_field-merge_fields, merge_pages, to_list, merge_pages-arr}

abbrev page : ℕ → Fields
page n = field (codes "items") (arr (cons (num n) nil)) (field (codes "total") (num n) end)

find_field-merge_fields_test :
    find_field (codes "items") (merge_fields (page 1) (page 2))
    ≡ merge_value (arr (cons (num 1) nil)) (arr (cons (num 2) nil))
unfolding find_field
find_field-merge_fields_test =
    find_field-merge_fields (codes "items") (page 1) (page 2) (refl, (refl, tt))

abbrev key : ℕ → Text
key n = n ∷ []

merge_pages-arr_test :
    (xs : Items) × (merge_pages key (arr (cons (num 1) nil)) (cons (num 2) nil ∷ []) ≡ arr xs)
    × (to_list xs ≡ num 1 ∷ num 2 ∷ [])
merge_pages-arr_test = merge_pages-arr key (cons (num 1) nil) (cons (num 2) nil ∷ [])
