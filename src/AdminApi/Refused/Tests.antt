-- ===== src/AdminApi/Refused/Tests.antt =====
-- An answer that is refused.
use noant.Base.{ℕ, Text, codes, false, some}
use noant.Json.{str, obj, field, end}
use noant.AdminApi.{Response, request}
use noant.AdminApi.Refused.{IsSettled, request-IsSettled}

abbrev refused : Response
refused = record {
  status = 400;
  ok = false;
  json = some (obj (field (codes "error") (str (codes "Invalid plan")) end));
}

-- The text of the one status.
abbrev to_text : ℕ → Text
to_text n = codes "400"

request-IsSettled_example : IsSettled to_text refused (request to_text refused)
request-IsSettled_example = request-IsSettled to_text refused
