-- ===== src/Channels/Answers.antt =====
-- The connection of a channel, from the press to its last answer.
mod Tests
use noant.Base.{
  Text, codes, ◌===◌, Bool, true, false, not, ◌&&◌, ◌||◌, Option, none, some, List, [], ◌∷◌,
  if◌then◌else◌, ◌≡◌, refl, arith, Bool-cases, inl, inr,
}
use noant.Channels.{
  Channels, WidgetForm, WidgetConfig, Effect, gets_integrations, posts_connect, posts_config,
  handle_connect_submit, finished, updated_widget, connect_answered, config_answered,
}

-- The whole handler: the answer of the connection, and that of the configuration of the widget.
pub submit : (channel : Text) → WidgetForm → (connects saves : Bool) → Channels → Channels
unfolding handle_connect_submit
submit channel form connects saves s =
    let answered =
      connect_answered channel form s.widget_config connects (handle_connect_submit channel s) in
    if connects && channel === codes "web" then config_answered saves answered else answered

-- How the handler leaves the page.
pub record IsSubmitted (channel : Text) (form : WidgetForm) (connects saves : Bool) (s t : Channels)
    : Type 0 where
  pub stopped : t.connect_loading ≡ false
  pub closed :
      t.active_modal
      ≡ (if connects && (saves || not (channel === codes "web")) then none else s.active_modal)
  pub kept : t.widget_config ≡ (
      if connects && channel === codes "web"
      then some (updated_widget form s.widget_config)
      else s.widget_config)
  pub logged : t.log ≡ (
      let asked = posts_connect channel ∷ s.log in
      if not connects
      then asked
      else if not (channel === codes "web")
      then gets_integrations ∷ asked
      else let sent = posts_config (updated_widget form s.widget_config) ∷ asked in
        if saves then gets_integrations ∷ sent else sent)

-- The form of a channel is closed, and the integrations are asked for again, when all requests succeed,
-- and else not; the widget is configured once it is connected, also when the configuration is not saved
-- in the end. The button is free again in any case.
pub submit-IsSubmitted :
    (channel : Text) (form : WidgetForm) (connects saves : Bool) (s : Channels)
    → IsSubmitted channel form connects saves s (submit channel form connects saves s)
unfolding submit handle_connect_submit connect_answered config_answered finished
submit-IsSubmitted channel form false saves s = record {
  stopped = ground arith;
  closed = ground arith;
  kept = ground arith;
  logged = ground arith;
}
submit-IsSubmitted channel form true true s = record {
  stopped = ground arith;
  closed = ground arith;
  kept = ground arith;
  logged = ground arith;
}
submit-IsSubmitted channel form true false s = record {
  stopped = ground arith;
  closed = ground arith;
  kept = ground arith;
  logged = ground arith;
}
