-- ===== src/AdminApi.antt =====
-- The client of the admin's pages: admin/src/lib/api.ts, `AdminAPI`. `API_BASE` is left out of the
-- addresses. A parameter that is not given is the empty text, a limit that is not given is 0.
pub mod Search
pub mod Query
pub mod Refused
use noant.Base.{
  ℕ, ◌==◌, Text, codes, ◌===◌, Bool, true, false, not, Option, none, some, List, [], ◌∷◌, ◌++◌,
  if◌then◌else◌,
}
use noant.Json.{Value, undefined, bool, str, obj, Fields, end, field, truthy, member}
use noant.AdminApi.Search.{set, to_string}

pub data Method : Type 0 where
  get post put : Method

pub record Request : Type 0 where
  pub method : Method
  pub path : Text
  pub body : Option Value

-- What `fetch` answers: `json` is what `res.json()` gives, `none` where it throws.
pub record Response : Type 0 where
  pub status : ℕ
  pub ok : Bool
  pub json : Option Value

pub data Thrown : Type 0 where
  error_with : Value → Thrown
  type_error syntax_error : Thrown

pub record Outcome : Type 0 where
  pub result : Option Value
  pub thrown : Option Thrown
  pub location : Option Text

returns : Value → Outcome
returns v = record { result = some v; thrown = none; location = none }

throws : Thrown → Outcome
throws e = record { result = none; thrown = some e; location = none }

-- `res.json().catch(() => ({ error: 'Request failed' }))`
pub error_body : Option Value → Value
error_body none = obj (field (codes "error") (str (codes "Request failed")) end)
error_body (some v) = v

-- `error.error || …` of the status, whose text is given.
pub refuse : (status_text : Text) → Value → Outcome
unfolding throws
refuse status_text v = elim (member v (codes "error")) [
  | none ↦ throws type_error
  | some e ↦ throws (error_with (if truthy e then e else str (codes "HTTP " ++ status_text)))
]

-- `request` behind its `fetch`; `to_text` is `String` of a number.
pub request : (to_text : ℕ → Text) → Response → Outcome
unfolding returns throws refuse error_body
request to_text r =
    if r.status == 401
    then record {
      result = none;
      thrown = some (error_with (str (codes "Unauthorized")));
      location = some (codes "/login");
    }
    else if not r.ok
    then refuse (to_text r.status) (error_body r.json)
    else elim r.json [ none ↦ throws syntax_error | some v ↦ returns v ]

abbrev pub gets : Text → Request
gets path = record { method = get; path = path; body = none }

abbrev pub posts : Text → Request
posts path = record { method = post; path = path; body = none }

abbrev pub sends : Method → Text → Fields → Request
sends way path fields = record { method = way; path = path; body = some (obj fields) }

-- `id` in the middle of a path.
abbrev pub user_path : Text → Text → Text
user_path id rest = codes "/api/v1/admin/users/" ++ id ++ rest

pub login : (email password : Text) → Request
login email password =
    sends post (codes "/api/v1/auth/login")
      (field (codes "email") (str email) (field (codes "password") (str password) end))

pub me : Request
me = gets (codes "/api/v1/auth/me")

pub logout : Request
logout = posts (codes "/api/v1/auth/logout")

pub get_overview : Request
get_overview = gets (codes "/api/v1/admin/overview")

pub get_user : Text → Request
get_user id = gets (user_path id [])

pub suspend_user : Text → Bool → Request
suspend_user id suspended =
    sends put (user_path id (codes "/suspend")) (field (codes "suspended") (bool suspended) end)

pub activate_user : Text → Request
unfolding suspend_user
activate_user id = suspend_user id false

pub upgrade_user_plan : (id plan_id : Text) → Request
upgrade_user_plan id plan_id =
    sends put (user_path id (codes "/plan")) (field (codes "plan_id") (str plan_id) end)

pub resend_verification : Text → Request
resend_verification id = posts (user_path id (codes "/resend-verify"))

-- `kind` is `type`.
pub send_user_notification : (id title message : Text) → (kind : Value) → Request
send_user_notification id title message kind = sends post (user_path id (codes "/notify")) (
    field (codes "title") (str title)
      (field (codes "message") (str message) (field (codes "type") kind end)))

pub impersonate_user : Text → Request
impersonate_user id = posts (user_path id (codes "/impersonate"))

pub get_slack_config : Request
get_slack_config = gets (codes "/api/v1/admin/slack/config")

pub save_slack_config : Text → Request
save_slack_config webhook_url =
    sends put (codes "/api/v1/admin/slack/config")
      (field (codes "slack_webhook_url") (str webhook_url) end)

pub get_analytics : Request
get_analytics = gets (codes "/api/v1/admin/analytics")

pub get_revenue : Request
get_revenue = gets (codes "/api/v1/admin/revenue")

pub get_ai_health : Request
get_ai_health = gets (codes "/api/v1/admin/ai/health")

pub get_system_health : Request
get_system_health = gets (codes "/api/v1/admin/system/health")

pub get_alerts : Request
get_alerts = gets (codes "/api/v1/admin/alerts")

pub get_activity : Request
get_activity = gets (codes "/api/v1/admin/activity")

pub get_referral : Request
get_referral = gets (codes "/api/v1/admin/referral")

pub get_pipeline_stats : Request
get_pipeline_stats = gets (codes "/api/v1/admin/pipeline-stats")

pub train_knowledge : Fields → Request
train_knowledge d = sends post (codes "/api/v1/admin/knowledge-base/train") d

pub create_sales_lead : Fields → Request
create_sales_lead d = sends post (codes "/api/v1/admin/sales-leads") d

pub update_sales_lead : Text → Fields → Request
update_sales_lead id d = sends put (codes "/api/v1/admin/sales-leads/" ++ id) d

-- The queries of the lists and of the export. `if (value) query.set(key, value)`
abbrev pub set_if : Text → Text → List (Text × Text) → List (Text × Text)
set_if key value query = if value === [] then query else set key value query

pub users_query : (search plan : Text) → List (Text × Text)
users_query search plan = set_if (codes "plan") plan (set_if (codes "search") search [])

pub leads_query : Text → List (Text × Text)
leads_query status = set_if (codes "status") status []

-- The entries of `params`, set one after the other.
pub set_all : List (Text × Text) → List (Text × Text) → List (Text × Text)
set_all [] query = query
set_all (p ∷ ps) query = set_all ps (set p.0 p.1 query)

-- `to_text` is `String` of a number.
module _ (to_text : ℕ → Text) where
  abbrev pub set_limit : ℕ → List (Text × Text) → List (Text × Text)
  set_limit limit query = if limit == 0 then query else set (codes "limit") (to_text limit) query

  pub logs_query : (search action user_id : Text) → ℕ → List (Text × Text)
  logs_query search action user_id limit = set_limit limit (
      set_if (codes "user_id") user_id
        (set_if (codes "action") action (set_if (codes "search") search [])))

  pub knowledge_query : (status search : Text) → ℕ → List (Text × Text)
  knowledge_query status search limit =
      set_limit limit (set_if (codes "search") search (set_if (codes "status") status []))

-- `encode` is the encoding of a form.
module _ (encode : Text → Text) where
  -- `${path}${qs ? '?' + qs : ''}`
  pub with_query : Text → List (Text × Text) → Text
  with_query path query =
      let qs = to_string encode query in if qs === [] then path else path ++ (codes "?" ++ qs)

  pub get_users : (search plan : Text) → Request
  unfolding with_query users_query
  get_users search plan = gets (with_query (codes "/api/v1/admin/users") (users_query search plan))

  pub get_sales_leads : Text → Request
  unfolding with_query leads_query
  get_sales_leads status =
      gets (with_query (codes "/api/v1/admin/sales-leads") (leads_query status))

  -- The address of the link that is clicked.
  pub export_csv : Text → List (Text × Text) → Text
  unfolding with_query set_all
  export_csv resource params =
      with_query (codes "/api/v1/admin/export/" ++ resource) (set_all params [])

  module _ (to_text : ℕ → Text) where
    pub get_audit_logs : (search action user_id : Text) → ℕ → Request
    unfolding with_query logs_query
    get_audit_logs search action user_id limit = gets (
        with_query (codes "/api/v1/admin/audit-logs")
          (logs_query to_text search action user_id limit))

    pub get_knowledge_base : (status search : Text) → ℕ → Request
    unfolding with_query knowledge_query
    get_knowledge_base status search limit = gets (
        with_query (codes "/api/v1/admin/knowledge-base")
          (knowledge_query to_text status search limit))
