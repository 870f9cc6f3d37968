-- ===== src/Channels/WebWidget/Kept.antt =====
-- A form that is submitted as it was mounted.
mod Tests
use noant.Base.{
  Text, codes, ◌===◌, ===-eq-false, Bool, true, false, Option, none, some, List, [], ◌∷◌,
  if◌then◌else◌, ◌≡◌, ◌≢◌, refl, sym, ap, ◌∙◌, subst, ◌⊎◌, inl, inr,
}
use noant.Widget.{trim}
use noant.Channels.{
  WidgetConfig, WidgetForm, Channels, Effect, posts_config, updated_widget, connect_answered,
}
use noant.Channels.WebWidget.{existing_config, default_form, or_default, mount_form, submitted_form}

-- A text that has no white space around it and is not empty.
pub record IsTrimmed (t : Text) : Type 0 where
  pub same : trim t ≡ t
  pub filled : (t === []) ≡ false

pub record IsComplete (c : WidgetConfig) : Type 0 where
  pub bot_name : IsTrimmed c.bot_name
  pub greeting : IsTrimmed c.greeting
  pub brand_color : IsTrimmed c.brand_color
  pub position : (c.position ≡ codes "bottom-left") ⊎ (c.position ≡ codes "bottom-right")
  pub is_active : c.is_active ≡ true

text_lem : (t default : Text) → IsTrimmed t → trim (or_default t default) ≡ t
text_lem t default h = ap (λ b. trim (if b then default else t)) h.filled ∙ h.same

-- The side that the modal has, and the one that is read from it.
abbrev side_of : Text → Text
side_of p =
    let side =
      or_default (if p === codes "bottom-left" then codes "left" else codes "right")
        default_form.position in
    if side === codes "left" then codes "bottom-left" else codes "bottom-right"

side_lem : (p : Text) → (p ≡ codes "bottom-left") ⊎ (p ≡ codes "bottom-right") → side_of p ≡ p
side_lem p (inl e) = ap side_of e ∙ sym e
side_lem p (inr e) = ap side_of e ∙ sym e

updated_lem :
    (c : WidgetConfig)
    → IsComplete c
    → updated_widget (submitted_form (mount_form (existing_config (some c)))) (some c) ≡ c
unfolding updated_widget submitted_form mount_form existing_config
updated_lem c h =
    ap
      (λ t. record c {
        bot_name = t;
        greeting = trim (or_default c.greeting default_form.greeting);
        brand_color = trim (or_default c.brand_color default_form.brand_color);
        position = side_of c.position;
        is_active = true;
      })
      (text_lem c.bot_name default_form.bot_name h.bot_name)
    ∙ ap
        (λ t. record c {
          greeting = t;
          brand_color = trim (or_default c.brand_color default_form.brand_color);
          position = side_of c.position;
          is_active = true;
        })
        (text_lem c.greeting default_form.greeting h.greeting)
    ∙ ap (λ t. record c { brand_color = t; position = side_of c.position; is_active = true })
        (text_lem c.brand_color default_form.brand_color h.brand_color)
    ∙ ap (λ p. record c { position = p; is_active = true }) (side_lem c.position h.position)
    ∙ ap (λ b. record c { is_active = b }) (sym h.is_active)

-- Where the configuration of the widget was there when the page was mounted, the form that is submitted
-- without a change is saved as this configuration. Its texts are not empty and have no white space
-- around them, the widget stands on the left or on the right, and it is active.
pub connect_answered-submitted_form :
    (c : WidgetConfig) (s : Channels)
    → IsComplete c
    → let t =
        connect_answered
          (codes "web")
          (submitted_form (mount_form (existing_config (some c))))
          (some c)
          true
          s in
      (t.widget_config ≡ some c) × (t.log ≡ posts_config c ∷ s.log)
unfolding connect_answered
connect_answered-submitted_form c s h =
    (ap (λ d. some d) (updated_lem c h), ap (λ d. posts_config d ∷ s.log) (updated_lem c h))
