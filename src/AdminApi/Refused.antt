-- ===== src/AdminApi/Refused.antt =====
-- How a request ends.
mod Tests
use noant.Base.{
  ℕ, ◌==◌, Text, codes, Bool, true, false, not, Option, none, some, if◌then◌else◌, ◌++◌, ◌≡◌, refl,
  sym, ap, ◌∙◌, subst, arith, Option-cases, Bool-cases, inl, inr,
}
use noant.Json.{
  Value, undefined, null, bool, num, str, arr, Fields, obj, find_field, member, member?, truthy, or,
}
use noant.AdminApi.{
  Response, Thrown, error_with, type_error, syntax_error, Outcome, returns, throws, error_body,
  refuse, request,
}

abbrev pub is_some {ℓ} : {A : Type ℓ} → Option A → Bool
is_some none = false
is_some (some a) = true

-- What is thrown at an answer that is not ok: of a text that is not JSON, of `null`, which has no
-- `error`, and of any other value.
abbrev pub refusal : (status_text : Text) → Option Value → Thrown
refusal status_text none = error_with (str (codes "Request failed"))
refusal status_text (some null) = type_error
refusal status_text (some undefined) = type_error
refusal status_text (some v) =
    error_with (or (member? v (codes "error")) (str (codes "HTTP " ++ status_text)))

-- The outcome `o` of the answer `r`.
pub record IsSettled (to_text : ℕ → Text) (r : Response) (o : Outcome) : Type 0 where
  pub result : o.result ≡ (if r.status == 401 then none else if r.ok then r.json else none)
  pub location : o.location ≡ (if r.status == 401 then some (codes "/login") else none)
  pub thrown : o.thrown ≡ (
      if r.status == 401
      then some (error_with (str (codes "Unauthorized")))
      else if not r.ok
      then some (refusal (to_text r.status) r.json)
      else if is_some r.json
      then none
      else some syntax_error)
  pub one : is_some o.result ≡ not (is_some o.thrown)

refuse_lem :
    (status_text : Text) (json : Option Value)
    → let o = refuse status_text (error_body json) in
      (o.result ≡ none) × (o.location ≡ none) × (o.thrown ≡ some (refusal status_text json))
unfolding refuse throws error_body member member? or find_field truthy
refuse_lem t none = (refl, refl, refl)
refuse_lem t (some undefined) = (refl, refl, refl)
refuse_lem t (some null) = (refl, refl, refl)
refuse_lem t (some (bool b)) = (refl, refl, refl)
refuse_lem t (some (num n)) = (refl, refl, refl)
refuse_lem t (some (str s)) = (refl, refl, refl)
refuse_lem t (some (arr vs)) = (refl, refl, refl)
refuse_lem t (some (obj fields)) = (refl, refl, refl)

-- The same for an answer that is taken apart.
settled_lem :
    (to_text : ℕ → Text) (status : ℕ) (ok : Bool) (json : Option Value)
    → let r : Response = record { status = status; ok = ok; json = json } in
      IsSettled to_text r (request to_text r)
unfolding request returns throws
settled_lem to_text status true none = record {
  result = ground arith;
  location = ground arith;
  thrown = ground arith;
  one = ground arith;
}
settled_lem to_text status true (some v) = record {
  result = ground arith;
  location = ground arith;
  thrown = ground arith;
  one = ground arith;
}
settled_lem to_text status false json =
    let (a, b, c) = refuse_lem (to_text status) json in
    record {
      result = ground arith;
      location = ground arith;
      thrown = ground arith;
      one = ground arith;
    }

-- Every request returns or throws, and never both. It returns what the answer holds, when that is ok and
-- is JSON; it sends the browser to the login, and throws `Unauthorized`, exactly at a 401. Of any other
-- answer that is not ok it throws the `error` of its JSON, or `HTTP` with the status where there is no
-- such error; `Request failed` where it is not JSON, and a TypeError where the JSON is null. An answer
-- that is ok and is not JSON gives a SyntaxError.
pub request-IsSettled :
    (to_text : ℕ → Text) (r : Response) → IsSettled to_text r (request to_text r)
request-IsSettled to_text r = settled_lem to_text r.status r.ok r.json
