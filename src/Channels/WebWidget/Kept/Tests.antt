-- ===== src/Channels/WebWidget/Kept/Tests.antt =====
-- A widget on the left.
use noant.Base.{codes, true, some, [], ◌∷◌, ◌≡◌, refl, inl}
use noant.Channels.{WidgetConfig, posts_config, connect_answered}
use noant.Channels.Copied.Tests.{opened}
use noant.Channels.WebWidget.{existing_config, mount_form, submitted_form}
use noant.Channels.WebWidget.Kept.{IsComplete, connect_answered-submitted_form}

abbrev on_the_left : WidgetConfig
on_the_left = record {
  bot_name = codes "Ada";
  greeting = codes "Hello you";
  brand_color = codes "#3b82f6";
  position = codes "bottom-left";
  is_active = true;
  widget_api_key = codes "k1";
}

on_the_left-IsComplete : IsComplete on_the_left
on_the_left-IsComplete = record {
  bot_name = record { same = refl; filled = refl };
  greeting = record { same = refl; filled = refl };
  brand_color = record { same = refl; filled = refl };
  position = inl refl;
  is_active = refl;
}

connect_answered-submitted_form_example :
    let t =
      connect_answered
        (codes "web")
        (submitted_form (mount_form (existing_config (some on_the_left))))
        (some on_the_left)
        true
        opened in
    (t.widget_config ≡ some on_the_left) × (t.log ≡ posts_config on_the_left ∷ [])
connect_answered-submitted_form_example =
    connect_answered-submitted_form on_the_left opened on_the_left-IsComplete
