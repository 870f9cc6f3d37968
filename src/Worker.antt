-- ===== src/Worker.antt =====
-- The service worker, frontend/public/sw.js. What the network gives is a parameter, `none` being a
-- `fetch` that throws; what `cache.put` stores is there for the next request.
pub mod Cached
pub mod Click
use noant.Base.{
  ℕ, ◌+◌, Text, codes, ◌===◌, starts_with, includes, Bool, true, false, not, ◌&&◌, Option, none,
  some, List, [], ◌∷◌, if◌then◌else◌,
}
use noant.Json.{Value, undefined, str, or, member, member?}

pub record Response : Type 0 where
  pub status : ℕ
  pub ok : Bool
  pub body : Text

pub record Request : Type 0 where
  pub method : Text
  pub url : Text

-- `noant-v1`: the responses by their addresses.
abbrev pub Cache : Type 0
Cache = List (Text × Response)

-- `caches.match`
pub find : Text → Cache → Option Response
find url [] = none
find url ((u, r) ∷ cache) = if u === url then some r else find url cache

-- `cache.put`
pub put : Text → Response → Cache → Cache
put url r [] = (url, r) ∷ []
put url r ((u, s) ∷ cache) = if u === url then (u, r) ∷ cache else (u, s) ∷ put url r cache

-- `if (resp.ok) cache.put(request, resp.clone())`
pub kept : Text → Response → Cache → Cache
unfolding put
kept url r cache = if r.ok then put url r cache else cache

pub offline : Response
offline = record { status = 503; ok = false; body = codes "Offline" }

or_offline : Option Response → Response
unfolding offline
or_offline none = offline
or_offline (some r) = r

pub network_first : Text → (network : Option Response) → Cache → Response × Cache
unfolding kept or_offline find
network_first url (some r) cache = (r, kept url r cache)
network_first url none cache = (or_offline (find url cache), cache)

-- `cacheFirst` behind its `caches.match`
fetched : Text → (network cached : Option Response) → Cache → Response × Cache
unfolding kept offline
fetched url network (some r) cache = (r, cache)
fetched url (some r) none cache = (r, kept url r cache)
fetched url none none cache = (offline, cache)

pub cache_first : Text → (network : Option Response) → Cache → Response × Cache
unfolding fetched find
cache_first url network cache = fetched url network (find url cache) cache

abbrev pub is_api : Text → Bool
is_api url = includes (codes "/api/") url

-- The `fetch` listener; `none` is a request that the worker leaves to the browser.
pub on_fetch : Request → (network : Option Response) → Cache → Option Response × Cache
unfolding network_first cache_first
on_fetch request network cache =
    if not (request.method === codes "GET")
    then (none, cache)
    else let (r, c) =
        if is_api request.url
        then network_first request.url network cache
        else cache_first request.url network cache in
      (some r, c)

pub run : List (Request × Option Response) → Cache → Cache
unfolding on_fetch
run [] cache = cache
run ((request, network) ∷ es) cache = run es (on_fetch request network cache).1

-- A window that the worker may bring to the front.
pub record Window : Type 0 where
  pub url : Text
  pub can_focus : Bool

-- What a click on a notification does: a window, by its place in the list, is sent to an address
-- and focused; or one is opened.
pub data ClickAction : Type 0 where
  navigate : ℕ → Value → ClickAction
  open_window : Value → ClickAction
  nothing : ClickAction

pub is_ours : Text → Window → Bool
is_ours origin w = starts_with origin w.url && w.can_focus

-- The loop over the windows, from the `i`-th on, and what follows it.
pub focus_first : Text → Bool → Value → ℕ → List Window → ClickAction
unfolding is_ours
focus_first origin can_open url i [] = if can_open then open_window url else nothing
focus_first origin can_open url i (w ∷ ws) =
    let rest = focus_first origin can_open url (i + 1) ws in
    if is_ours origin w then navigate i url else rest

-- `notificationclick`, with the notification's `data`
pub on_click : Text → Bool → Value → List Window → ClickAction
unfolding focus_first
on_click origin can_open payload ws =
    focus_first origin can_open (or (member? payload (codes "url")) (str (codes "/"))) 0 ws

pub record Notification : Type 0 where
  pub title : Value
  pub text : Value
  pub url : Value

-- The two notifications of `push`.
plain : Text → Notification
plain text = record { title = str (codes "Noant"); text = str text; url = undefined }

filled : Option Value → Option Value → Option Value → Text → Notification
unfolding plain
filled (some title) (some b) (some url) text = record {
  title = or title (str (codes "Noant"));
  text = or b (str []);
  url = or url (str (codes "/"));
}
filled _ _ _ text = plain text

-- `push`: the payload's text, and as JSON if it is.
pub on_push : Text → Option Value → Notification
unfolding filled plain
on_push text none = plain text
on_push text (some v) =
    filled (member v (codes "title")) (member v (codes "body")) (member v (codes "url")) text
