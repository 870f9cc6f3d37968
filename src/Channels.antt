-- ===== src/Channels.antt =====
-- The page of the channels: frontend/src/app/(dashboard)/channels/page.tsx. A handler is a part up to
-- its `await` and the parts behind it.
pub mod Texts
pub mod Copied
pub mod Answers
pub mod WebWidget
use noant.Base.{
  ℕ, zero, suc, ◌+◌, ◌-◌, leb, ltb, ◌==◌, Text, codes, ◌===◌, starts_with, slice, length, keep_if,
  Bool, true, false, not, ◌&&◌, ◌||◌, Option, none, some, List, [], ◌∷◌, ◌++◌, if◌then◌else◌,
}
use noant.Json.{Value, undefined, bool, num, str, Fields, end, find_field}
use noant.Widget.{trim}

-- What the page reads of an integration; a text that is missing is empty.
pub record Integration : Type 0 where
  pub id : Text
  pub channel : Text
  pub status : Text
  pub config : Option Fields
  pub connected_at : Text
  pub created_at : Text
  pub updated_at : Text

pub record WidgetConfig : Type 0 where
  pub bot_name : Text
  pub greeting : Text
  pub brand_color : Text
  pub position : Text
  pub is_active : Bool
  pub widget_api_key : Text

pub data Effect : Type 0 where
  gets_integrations : Effect
  posts_connect : (channel : Text) → Effect
  posts_config : WidgetConfig → Effect
  posts_disconnect : (channel : Text) → Effect
  writes : Text → Effect

-- `timers` are the keys that the timers of `handleCopyWebhook` hold, the oldest first; they fire in this
-- order. `widget_config` is of the context. `log` has the newest effect first.
pub record Channels : Type 0 where
  pub disconnect_channel : Text
  pub disconnect_loading : Bool
  pub disconnect_error : Text
  pub copied_webhook_id : Text
  pub active_modal : Option Text
  pub connect_loading : Bool
  pub show_upgrade_modal : Bool
  pub locked_channel : Text
  pub show_disconnect : Bool
  pub widget_config : Option WidgetConfig
  pub timers : List Text
  pub log : List Effect

abbrev pub does : Effect → Channels → Channels
does e s = record s { log = e ∷ s.log }

pub is_connected : Text → Bool
is_connected status =
    status === codes "connected" || status === codes "active" || status === codes "CONNECTED"

pub is_pending : Text → Bool
is_pending status = status === codes "connecting" || status === codes "qr_ready"

-- What a key of the configuration gives, if it gives something; `to_text` is `String` of a number.
pub value_text : (ℕ → Text) → Value → Option Text
value_text to_text (str s) = if trim s === [] then none else some (trim s)
value_text to_text (num n) = some (to_text n)
value_text to_text (bool true) = some (codes "true")
value_text to_text (bool false) = some (codes "false")
value_text to_text _ = none

pub find_value : (ℕ → Text) → Fields → List Text → Text
unfolding value_text
find_value to_text config [] = []
find_value to_text config (key ∷ keys) =
    let rest = find_value to_text config keys in
    elim (value_text to_text (find_field key config)) [ none ↦ rest | some t ↦ t ]

pub get_config_value : (ℕ → Text) → Option Fields → List Text → Text
unfolding find_value
get_config_value to_text none keys = []
get_config_value to_text (some config) keys = find_value to_text config keys

-- `slice(0, n)` and `slice(-n)`, which for 0 is the whole text.
abbrev pub first : ℕ → Text → Text
first zero s = []
first (suc n) [] = []
first (suc n) (c ∷ s) = c ∷ first n s

abbrev pub last : ℕ → Text → Text
last zero s = s
last (suc n) s = slice (length s - suc n) s

pub shorten : Text → (head tail : ℕ) → Text
shorten value head tail =
    if leb (length value) (head + tail + 3)
    then value
    else first head value ++ (codes "..." ++ last tail value)

-- A text is before another one, in the order of the code units.
abbrev pub is_before : Text → Text → Bool
is_before s [] = false
is_before [] (d ∷ t) = true
is_before (c ∷ s) (d ∷ t) = ltb c d || c == d && is_before s t

-- `integration.updated_at || integration.created_at || integration.connected_at || ''`
abbrev pub candidate : Integration → Text
candidate i =
    if not (i.updated_at === [])
    then i.updated_at
    else if not (i.created_at === [])
    then i.created_at
    else i.connected_at

-- The loop with `lastUpdated` so far, over the integrations that are connected.
pub last_updated : Text → List Integration → Text
last_updated updated [] = updated
last_updated updated (i ∷ is) =
    last_updated
      (if not (candidate i === []) && is_before updated (candidate i) then candidate i else updated)
      is

pub connected_integrations : List Integration → List Integration
unfolding is_connected
connected_integrations is = keep_if (λ i. is_connected i.status) is

pub issue_count : List Integration → ℕ
issue_count is = length (keep_if (λ i. i.status === codes "error") is)

abbrev pub detail : Text → Text → List (Text × Text)
detail label value = if value === [] then [] else (label, value) ∷ []

pub get_card_details : (ℕ → Text) → Integration → List (Text × Text)
unfolding get_config_value shorten
get_card_details to_text i =
    let value : List Text → Text = get_config_value to_text i.config in
    let short : Text → Text = λ t. shorten t 10 8 in
    let bot = value (codes "bot_username" ∷ []) in
    let whatsapp =
      detail (codes "Number") (value (codes "phone" ∷ []))
      ++ detail (codes "Session") (short (value (codes "session_id" ∷ []))) in
    let telegram =
      if bot === []
      then []
      else (codes "Bot", if starts_with (codes "@") bot then bot else codes "@" ++ bot) ∷ [] in
    let gmail = detail (codes "Mailbox") (value (codes "email" ∷ codes "username" ∷ [])) in
    let web = detail (codes "Widget key") (short (value (codes "widget_api_key" ∷ []))) in
    if i.channel === codes "whatsapp"
    then whatsapp
    else if i.channel === codes "telegram"
    then telegram
    else if i.channel === codes "gmail"
    then gmail
    else if i.channel === codes "web"
    then web
    else []

-- The handlers. `plan` is `user?.plan_id || user?.plan || 'free'`.
pub handle_connect_click : (plan channel : Text) → Channels → Channels
handle_connect_click plan channel s =
    if plan === codes "free" && (channel === codes "telegram" || channel === codes "gmail")
    then record s { locked_channel = channel; show_upgrade_modal = true }
    else record s { active_modal = some channel }

pub handle_connect_submit : (channel : Text) → Channels → Channels
handle_connect_submit channel s = does (posts_connect channel) (record s { connect_loading = true })

-- What the form of the widget gives.
pub record WidgetForm : Type 0 where
  pub bot_name : Text
  pub greeting : Text
  pub brand_color : Text
  pub position : Text

abbrev pub key_of : Option WidgetConfig → Text
key_of none = []
key_of (some c) = c.widget_api_key

pub updated_widget : WidgetForm → Option WidgetConfig → WidgetConfig
updated_widget form current = record {
  bot_name = form.bot_name;
  greeting = form.greeting;
  brand_color = form.brand_color;
  position = if form.position === codes "left" then codes "bottom-left" else codes "bottom-right";
  is_active = true;
  widget_api_key = key_of current;
}

-- `current` is the configuration that the closure read. `true` is a request that succeeded.
pub finished : Channels → Channels
finished s = does gets_integrations (record s { active_modal = none; connect_loading = false })

pub connect_answered :
    (channel : Text) → WidgetForm → (current : Option WidgetConfig) → Bool → Channels → Channels
unfolding finished updated_widget
connect_answered channel form current false s = record s { connect_loading = false }
connect_answered channel form current true s =
    let updated : WidgetConfig = updated_widget form current in
    if channel === codes "web"
    then does (posts_config updated) (record s { widget_config = some updated })
    else finished s

-- Behind the second request, which is only made for the widget.
pub config_answered : Bool → Channels → Channels
unfolding finished
config_answered true s = finished s
config_answered false s = record s { connect_loading = false }

pub handle_disconnect_click : Text → Channels → Channels
handle_disconnect_click channel s = record s {
  disconnect_channel = channel;
  disconnect_error = [];
  show_disconnect = true;
}

pub handle_disconnect_confirm : Channels → Channels
handle_disconnect_confirm s =
    if s.disconnect_channel === []
    then s
    else does (posts_disconnect s.disconnect_channel)
        (record s { disconnect_loading = true; disconnect_error = [] })

-- The configuration of the widget that the disconnection leaves; the function that is given to
-- `setWidgetConfig` is taken to run at once.
pub deactivate : Channels → Channels
deactivate s = elim s.widget_config [
  | none ↦ s
  | some c ↦
      let updated : WidgetConfig = record c { is_active = false } in
      does (posts_config updated) (record s { widget_config = some updated })
]

-- `channel` is what the closure read; `some` is the message of what was thrown.
pub disconnect_answered : (channel : Text) → Option Text → Channels → Channels
unfolding deactivate
disconnect_answered channel none s =
    let left = if channel === codes "web" then deactivate s else s in
    does gets_integrations
      (record left { show_disconnect = false; disconnect_channel = []; disconnect_loading = false })
disconnect_answered channel (some message) s = record s {
  disconnect_error =
      if message === [] then codes "Failed to disconnect channel. Please try again." else message;
  disconnect_loading = false;
}

pub handle_copy_webhook : (url : Text) → Channels → Channels
handle_copy_webhook url s = does (writes url) s

-- Behind the clipboard, which may refuse.
pub copied : Integration → Bool → Channels → Channels
copied i true s =
    let copy_key = if i.id === [] then i.channel else i.id in
    record s { copied_webhook_id = copy_key; timers = s.timers ++ (copy_key ∷ []) }
copied i false s = s

-- The oldest of the timers.
abbrev pub fired : List Text → Channels → Channels
fired [] s = s
fired (key ∷ keys) s = record s {
  copied_webhook_id = if s.copied_webhook_id === key then [] else s.copied_webhook_id;
  timers = keys;
}

pub fire : Channels → Channels
fire s = fired s.timers s

pub notified : Text → Channels → Channels
notified kind s = if kind === codes "integration_update" then does gets_integrations s else s
