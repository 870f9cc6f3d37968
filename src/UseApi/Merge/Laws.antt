-- ===== src/UseApi/Merge/Laws.antt =====
-- What a merge keeps, joins and replaces.
mod Tests
use noant.Base.{
  Text, ◌===◌, ===_iff, ===_refl, Bool, true, false, not, Bool-cases, List, [], ◌∷◌, ◌++◌, ◌≡◌,
  refl, sym, ◌∙◌, ap, arith, inl, inr, if◌then◌else◌, ℕ, append-nil, append_assoc,
}
use mathlib.Core.Path.{subst}
use noant.Json.{Value, undefined, arr, obj, Items, nil, cons, Fields, end, field, find_field}
use noant.UseApi.Merge.{append_items, set_field, merge_value, merge_fields, merge_data}

abbrev pub has_field : Text → Fields → Bool
has_field k end = false
has_field k (field j v fs) = if j === k then true else has_field k fs

-- No key stands twice.
abbrev pub IsDistinct : Fields → Type 0
IsDistinct end = Unit
IsDistinct (field k v fs) = (has_field k fs ≡ false) × IsDistinct fs

find_field-set_field :
    (j k : Text) (v : Value) (fs : Fields)
    → find_field j (set_field k v fs) ≡ (if k === j then v else find_field j fs)
unfolding find_field set_field
find_field-set_field j k v end = refl
find_field-set_field j k v (field i w fs) =
    ground (arith, ===_iff k j, ===_iff i k, ===_iff i j, find_field-set_field j k v fs)

-- A merged object has, under a key of the new page, the old value joined with the new one or the
-- new one, and under any other key the old value.
pub find_field-merge_fields :
    (k : Text) (old new : Fields)
    → IsDistinct new
    → find_field k (merge_fields old new) ≡ (
        if has_field k new
        then merge_value (find_field k old) (find_field k new)
        else find_field k old)
unfolding merge_fields find_field
find_field-merge_fields k old end d = refl
find_field-merge_fields k old (field j v fs) d =
    find_field-merge_fields k (set_field j (merge_value (find_field j old) v) old) fs d.1
    ∙ (elim (Bool-cases (j === k)) [
      | inl e ↦
          let same : j ≡ k = (===_iff j k).0 e in
          let once = subst (λ i. has_field i fs ≡ false) same d.0 in
          rw (once, find_field-set_field k j (merge_value (find_field j old) v) old, e) (rw same)
      | inr e ↦ rw (find_field-set_field k j (merge_value (find_field j old) v) old, e)
    ])

abbrev pub to_list : Items → List Value
to_list nil = []
to_list (cons x xs) = x ∷ to_list xs

to_list-append_items : (xs ys : Items) → to_list (append_items xs ys) ≡ to_list xs ++ to_list ys
unfolding append_items
to_list-append_items nil ys = refl
to_list-append_items (cons x xs) ys = ap (x ∷◌) (to_list-append_items xs ys)

-- Pages that are loaded onto what is there.
abbrev pub merge_pages : (ℕ → Text) → Value → List Items → Value
merge_pages key v [] = v
merge_pages key v (p ∷ ps) = merge_pages key (merge_data key v (arr p)) ps

abbrev pub concat : List Items → List Value
concat [] = []
concat (p ∷ ps) = to_list p ++ concat ps

-- Pages that are arrays, loaded one after the other, give all their items in the order of loading.
pub merge_pages-arr :
    (key : ℕ → Text) (first : Items) (pages : List Items)
    → (xs : Items) × (merge_pages key (arr first) pages ≡ arr xs)
      × (to_list xs ≡ to_list first ++ concat pages)
unfolding merge_data
merge_pages-arr key first [] = (first, refl, sym (append-nil (to_list first)))
merge_pages-arr key first (p ∷ ps) =
    let (xs, e, f) = merge_pages-arr key (append_items first p) ps in
    (
      xs,
      e,
      f ∙ rw (to_list-append_items first p) (append_assoc (to_list first) (to_list p) (concat ps)),
    )
