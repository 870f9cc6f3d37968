-- ===== src/Widget.antt =====
-- The chat widget of frontend/public/widget.js, built into a page: its `CONFIG`, its `state`, the
-- input element, the requests, and what `render` put on the screen.
pub mod Address
pub mod Memory
pub mod Transcript
use noant.Base.{
  ℕ, zero, suc, ◌+◌, ◌-◌, ◌==◌, leb, Text, codes, ◌===◌, Bool, true, false, not, ◌&&◌, ◌||◌, Option,
  none, some, List, [], ◌∷◌, ◌++◌, if◌then◌else◌,
}
use noant.Json.{Value, null, str, truthy, member}

-- The white space that `trim` takes off.
abbrev pub is_space : ℕ → Bool
is_space c =
    (leb 9 c && leb c 13)
    || c == 32
    || c == 160
    || c == 5760
    || (leb 8192 c && leb c 8202)
    || c == 8232
    || c == 8233
    || c == 8239
    || c == 8287
    || c == 12288
    || c == 65279

abbrev pub trim_start : Text → Text
trim_start [] = []
trim_start (c ∷ s) = if is_space c then trim_start s else c ∷ s

abbrev pub trim_end : Text → Text
trim_end [] = []
trim_end (c ∷ s) = if is_space c && trim_end s === [] then [] else c ∷ trim_end s

abbrev pub trim : Text → Text
trim s = trim_end (trim_start s)

pub record Config : Type 0 where
  pub brand_color : Text
  pub greeting : Text
  pub bot_name : Text
  pub position : Text
  pub api_key : Text

pub data Role : Type 0 where
  user ai : Role

pub record Message : Type 0 where
  pub role : Role
  pub content : Value

pub record Payload : Type 0 where
  pub api_key : Text
  pub message : Text
  pub conversation_id : Option Value

-- What `render` makes: the messages, as far as they could be drawn, the three dots, and the button that is off.
pub record Screen : Type 0 where
  pub shown : List Message
  pub dots : Bool
  pub disabled : Bool

-- The messages and the payloads, the newest first; `in_flight` counts the requests that have no
-- answer.
pub record Widget : Type 0 where
  pub config : Config
  pub is_open : Bool
  pub messages : List Message
  pub conversation_id : Value
  pub sending : Bool
  pub typing : Bool
  pub input : Text
  pub sent : List Payload
  pub in_flight : ℕ
  pub screen : Screen

pub data Event : Type 0 where
  type_text : Text → Event
  enter click toggle_box open_box close_box error : Event
  load : (status : ℕ) → (response : Option Value) → Event

-- Whether `createElement` takes a child: a text and a value that is not truthy; a value of JSON that is
-- neither is no node, and `appendChild` throws.
pub draws : Value → Bool
draws (str s) = true
draws v = not (truthy v)

abbrev pub draws_all : List Message → Bool
draws_all [] = true
draws_all (m ∷ ms) = draws m.content && draws_all ms

-- The messages up to the first one that cannot be drawn, the newest first.
abbrev pub drawn : List Message → List Message
drawn [] = []
drawn (m ∷ ms) = let rest = drawn ms in if draws m.content && draws_all ms then m ∷ ms else rest

-- The loop over the messages may throw: then the dots are not drawn and the button is not updated.
pub render : Widget → Widget
unfolding draws
render w = record w {
  screen =
      if draws_all w.messages
      then record { shown = w.messages; dots = w.typing; disabled = w.sending }
      else record { shown = drawn w.messages; dots = false; disabled = w.screen.disabled };
}

-- `if (opts.x) CONFIG.x = opts.x`
abbrev given : Text → Text → Text
given option default = if option === [] then default else option

-- `init`, an option that is not given being empty
configured : Config → Config → Config
configured opts c = record {
  brand_color = given opts.brand_color c.brand_color;
  greeting = given opts.greeting c.greeting;
  bot_name = given opts.bot_name c.bot_name;
  position = given opts.position c.position;
  api_key = given opts.api_key c.api_key;
}

abbrev pub defaults : Config
defaults = record {
  brand_color = codes "#0ea5e9";
  greeting = codes "Hi! 👋 How can I help you?";
  bot_name = codes "Noant AI";
  position = codes "right";
  api_key = [];
}

abbrev pub says : Text → Message
says t = record { role = ai; content = str t }

-- `init` and `buildWidget`
pub built : Config → Widget
unfolding configured
built opts =
    let c = configured opts defaults in
    record {
      config = c;
      is_open = false;
      messages = says c.greeting ∷ [];
      conversation_id = null;
      sending = false;
      typing = false;
      input = [];
      sent = [];
      in_flight = 0;
      screen = record { shown = says c.greeting ∷ []; dots = false; disabled = false };
    }

pub toggle : Widget → Widget
toggle w = record w { is_open = not w.is_open }

pub payload_of : Widget → Text → Payload
payload_of w text = record {
  api_key = w.config.api_key;
  message = text;
  conversation_id = if truthy w.conversation_id then some w.conversation_id else none;
}

-- `sendMessage` behind its guard: the message, and the request, which is not made if `render` throws.
pub begins : Text → Widget → Widget
begins text w = record w {
  messages = record { role = user; content = str text } ∷ w.messages;
  sending = true;
  typing = true;
}

pub requests : Text → Widget → Widget
unfolding payload_of
requests text w = record w { sent = payload_of w text ∷ w.sent; in_flight = w.in_flight + 1 }

pub sends : Text → Widget → Widget
unfolding begins requests render draws
sends text w = let v = render (begins text w) in if draws_all v.messages then requests text v else v

pub send_message : Text → Widget → Widget
unfolding sends
send_message text w = if w.sending || trim text === [] then w else sends text w

pub handle_send : Widget → Widget
unfolding send_message
handle_send w =
    if trim w.input === [] then w else send_message (trim w.input) (record w { input = [] })

-- `state.messages.push({ role: 'ai', content })`
pub push : Value → Widget → Widget
push content w = record w { messages = record { role = ai; content = content } ∷ w.messages }

-- `resp.reply` and `resp.conversation_id`, both read
pub answered : Value → Value → Widget → Widget
unfolding push
answered reply id w =
    let v = if truthy reply then push reply w else w in
    if truthy id then record v { conversation_id = id } else v

abbrev pub confused : Value
confused = str (codes "Sorry, I had trouble understanding that. Please try again.")

abbrev pub unavailable : Value
unavailable = str (codes "Sorry, I'm having a temporary issue. Please try again later.")

abbrev pub unreachable : Value
unreachable = str (codes "Connection error. Please check your internet and try again.")

-- The two reads of `resp`, `none` being a TypeError, which the `catch` takes.
pub read : Option Value → Option Value → Widget → Widget
unfolding answered push
read (some reply) (some id) w = answered reply id w
read _ _ w = push confused w

-- the `try`, `none` being a text that is not JSON
pub understood : Option Value → Widget → Widget
unfolding read push
understood none w = push confused w
understood (some r) w = read (member r (codes "reply")) (member r (codes "conversation_id")) w

-- `state.sending = false; state.typing = false`, and the request is over
pub idle : Widget → Widget
idle w = record w { sending = false; typing = false; in_flight = w.in_flight - 1 }

pub on_load : ℕ → Option Value → Widget → Widget
unfolding understood push idle render
on_load status response w =
    render (if status == 200 then understood response (idle w) else push unavailable (idle w))

pub on_error : Widget → Widget
unfolding push idle render
on_error w = render (push unreachable (idle w))

-- One event: a button that is off takes no click, and no answer comes without a request.
pub step : Event → Widget → Widget
unfolding handle_send toggle on_load on_error
step (type_text t) w = record w { input = t }
step enter w = handle_send w
step click w = if w.screen.disabled then w else handle_send w
step toggle_box w = toggle w
step open_box w = if not w.is_open then toggle w else w
step close_box w = if w.is_open then toggle w else w
step error w = if w.in_flight == 0 then w else on_error w
step (load status response) w = if w.in_flight == 0 then w else on_load status response w

pub run : List Event → Widget → Widget
unfolding step
run [] w = w
run (e ∷ es) w = run es (step e w)
