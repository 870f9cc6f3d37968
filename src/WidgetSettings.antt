-- ===== src/WidgetSettings.antt =====
-- The configuration of the widget that the pages share: frontend/src/contexts/WidgetConfigContext.tsx,
-- `WidgetConfigProvider`.
use noant.Base.{
  Text, codes, ◌===◌, Bool, true, false, Option, none, some, List, [], ◌∷◌, ◌++◌, if◌then◌else◌,
}
use noant.Channels.{WidgetConfig, WidgetForm}

-- What the server answers: a field that it leaves out is `none`.
pub record Loaded : Type 0 where
  pub bot_name : Option Text
  pub greeting : Option Text
  pub brand_color : Option Text
  pub position : Option Text
  pub is_active : Option Bool
  pub widget_api_key : Option Text

pub data Effect : Type 0 where
  gets_config disconnects : Effect
  posts_config : WidgetConfig → Effect
  connects : WidgetForm → Effect

pub record Provider : Type 0 where
  pub config : Option WidgetConfig
  pub loading : Bool
  pub saving : Bool
  pub log : List Effect

abbrev pub does : Effect → Provider → Provider
does e s = record s { log = e ∷ s.log }

abbrev pub default_config : WidgetConfig
default_config = record {
  bot_name = codes "Noant AI";
  greeting = codes "Hello! How can I help you today? " ++ (55357 ∷ 56395 ∷ []);
  brand_color = codes "#3b82f6";
  position = codes "bottom-right";
  is_active = true;
  widget_api_key = [];
}

abbrev pub otherwise {ℓ} : {A : Type ℓ} → Option A → A → A
otherwise none a = a
otherwise (some b) a = b

-- `{ ...defaultConfig, ...res }`
pub spread : Loaded → WidgetConfig
spread r = record {
  bot_name = otherwise r.bot_name default_config.bot_name;
  greeting = otherwise r.greeting default_config.greeting;
  brand_color = otherwise r.brand_color default_config.brand_color;
  position = otherwise r.position default_config.position;
  is_active = otherwise r.is_active default_config.is_active;
  widget_api_key = otherwise r.widget_api_key default_config.widget_api_key;
}

-- `load` up to its `await`, and behind it; `none` is a request that threw.
pub load : Provider → Provider
load s = does gets_config (record s { loading = true })

pub loaded : Option Loaded → Provider → Provider
unfolding spread
loaded none s = record s { loading = false }
loaded (some r) s = record s { config = some (spread r); loading = false }

-- What `save` gives to the connection of the channel.
pub form_of : WidgetConfig → WidgetForm
form_of c = record {
  bot_name = c.bot_name;
  greeting = c.greeting;
  brand_color = c.brand_color;
  position = if c.position === codes "bottom-left" then codes "left" else codes "right";
}

pub save : Provider → Provider
save s = elim s.config [ none ↦ s | some c ↦ does (posts_config c) (record s { saving = true }) ]

-- Behind the first request of `save`, whose closure read the configuration; `true` is a success.
pub config_posted : WidgetConfig → Bool → Provider → Provider
unfolding form_of
config_posted c true s = if c.is_active then does (connects (form_of c)) s else does disconnects s
config_posted c false s = record s { saving = false }

-- Behind the second one, whatever becomes of it.
pub synced : Provider → Provider
synced s = record s { saving = false }
