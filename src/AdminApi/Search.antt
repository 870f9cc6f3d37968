-- ===== src/AdminApi/Search.antt =====
-- `URLSearchParams` as its list of pairs.
use noant.Base.{Text, codes, ◌===◌, List, [], ◌∷◌, ◌++◌, if◌then◌else◌}

-- `set`: the first pair of the key has the value, the others of the key go.
abbrev pub drop_key : Text → List (Text × Text) → List (Text × Text)
drop_key key [] = []
drop_key key (p ∷ ps) = if p.0 === key then drop_key key ps else p ∷ drop_key key ps

abbrev pub set : Text → Text → List (Text × Text) → List (Text × Text)
set key value [] = (key, value) ∷ []
set key value (p ∷ ps) =
    if p.0 === key then (key, value) ∷ drop_key key ps else p ∷ set key value ps

-- `toString`
abbrev pub pair_text : (Text → Text) → Text × Text → Text
pair_text encode p = encode p.0 ++ (codes "=" ++ encode p.1)

abbrev pub to_string : (Text → Text) → List (Text × Text) → Text
to_string encode [] = []
to_string encode (p ∷ []) = pair_text encode p
to_string encode (p ∷ q ∷ ps) = pair_text encode p ++ (codes "&" ++ to_string encode (q ∷ ps))
