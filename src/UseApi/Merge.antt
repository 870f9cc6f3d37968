-- ===== src/UseApi/Merge.antt =====
-- `mergeData` of frontend/src/hooks/useAPI.ts, on values that JSON gives.
pub mod Laws
use noant.Base.{ℕ, ◌+◌, Text, ◌===◌, Bool, true, false, ◌&&◌, if◌then◌else◌}
use noant.Json.{
  Value, undefined, null, bool, num, str, arr, obj, Items, nil, cons, Fields, end, field,
  find_field,
}

-- `[...a, ...b]`
pub append_items : Items → Items → Items
append_items nil ys = ys
append_items (cons x xs) ys = cons x (append_items xs ys)

-- `result[key] = v`
pub set_field : Text → Value → Fields → Fields
set_field k v end = field k v end
set_field k v (field j w fs) = if j === k then field j v fs else field j w (set_field k v fs)

-- One key of the loop: two arrays are joined, and any other value is replaced.
pub merge_value : Value → Value → Value
unfolding append_items
merge_value (arr xs) (arr ys) = arr (append_items xs ys)
merge_value _ incoming = incoming

-- The loop over `Object.keys(incoming)`.
pub merge_fields : Fields → Fields → Fields
unfolding merge_value set_field find_field
merge_fields result end = result
merge_fields result (field k v fs) =
    merge_fields (set_field k (merge_value (find_field k result) v) result) fs

-- `typeof v === 'object' && v !== null`
pub is_object : Value → Bool
is_object (arr xs) = true
is_object (obj fs) = true
is_object _ = false

-- The own keys of an array, `key` being the text of an index.
pub indexed : (ℕ → Text) → ℕ → Items → Fields
indexed key i nil = end
indexed key i (cons x xs) = field (key i) x (indexed key (i + 1) xs)

pub fields_of : (ℕ → Text) → Value → Fields
unfolding indexed
fields_of key (obj fs) = fs
fields_of key (arr xs) = indexed key 0 xs
fields_of key _ = end

abbrev both_arrays : Value → Value → Bool
both_arrays (arr xs) (arr ys) = true
both_arrays _ _ = false

unfoldable pub merge_data : (ℕ → Text) → Value → Value → Value
unfolding merge_value merge_fields is_object fields_of
merge_data key existing incoming =
    if both_arrays existing incoming
    then merge_value existing incoming
    else if is_object existing && is_object incoming
    then obj (merge_fields (fields_of key existing) (fields_of key incoming))
    else incoming
