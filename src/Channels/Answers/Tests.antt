-- ===== src/Channels/Answers/Tests.antt =====
-- The widget, whose configuration is not saved.
use noant.Base.{codes, true, false}
use noant.Channels.{WidgetForm}
use noant.Channels.Copied.Tests.{opened}
use noant.Channels.Answers.{submit, IsSubmitted, submit-IsSubmitted}

abbrev left_form : WidgetForm
left_form = record {
  bot_name = codes "Ada";
  greeting = codes "Hello";
  brand_color = codes "#3b82f6";
  position = codes "left";
}

submit-IsSubmitted_example :
    IsSubmitted
      (codes "web")
      left_form
      true
      false
      opened
      (submit (codes "web") left_form true false opened)
submit-IsSubmitted_example = submit-IsSubmitted (codes "web") left_form true false opened
