-- ===== src/Channels/WebWidget.antt =====
-- The form of the widget: frontend/src/components/channels/WebWidgetModal.tsx, with the configuration that
-- frontend/src/app/(dashboard)/channels/page.tsx gives to it. The modal is mounted with the page, and
-- reads that configuration then.
pub mod Kept
use noant.Base.{Text, codes, ◌===◌, Option, none, some, List, [], ◌∷◌, ◌++◌, if◌then◌else◌}
use noant.Widget.{trim}
use noant.Channels.{WidgetConfig, WidgetForm}

-- `existingConfig`
pub existing_config : Option WidgetConfig → Option WidgetForm
existing_config none = none
existing_config (some c) = some (record {
  bot_name = c.bot_name;
  greeting = c.greeting;
  brand_color = c.brand_color;
  position = if c.position === codes "bottom-left" then codes "left" else codes "right";
})

abbrev pub default_form : WidgetForm
default_form = record {
  bot_name = codes "Noant AI";
  greeting = codes "Hi! " ++ (55357 ∷ 56395 ∷ codes " How can I help you?");
  brand_color = codes "#0ea5e9";
  position = codes "right";
}

abbrev pub or_default : Text → Text → Text
or_default t default = if t === [] then default else t

-- The states of the inputs as they are mounted.
pub mount_form : Option WidgetForm → WidgetForm
mount_form none = default_form
mount_form (some f) = record {
  bot_name = or_default f.bot_name default_form.bot_name;
  greeting = or_default f.greeting default_form.greeting;
  brand_color = or_default f.brand_color default_form.brand_color;
  position = or_default f.position default_form.position;
}

-- What `handleSubmit` gives to `onConnect`.
pub submitted_form : WidgetForm → WidgetForm
submitted_form f = record {
  bot_name = trim f.bot_name;
  greeting = trim f.greeting;
  brand_color = trim f.brand_color;
  position = f.position;
}
