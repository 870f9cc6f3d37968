-- ===== src/Endpoint.antt =====
-- The three places where the client turns VITE_API_URL into an address: `API_BASE` at the top of
-- frontend/src/lib/api.ts, the socket's address in frontend/src/lib/websocket.ts (`connect`), and
-- `getHealthUrl` in frontend/src/contexts/NetworkContext.tsx. An environment variable that is not
-- set and one that is empty are both the empty text here: the source only tests for truth.
pub mod Agreement
use noant.Base.{
  Text, codes, ◌===◌, starts_with, ends_with, slice, Bool, true, not, ◌&&◌, ◌||◌, if◌then◌else◌, [],
  ◌∷◌, ◌++◌,
}

-- `s.replace(/\/$/, '')`
unfoldable pub drop_slash : Text → Text
drop_slash [] = []
drop_slash (c ∷ s) = if (c ∷ s) === codes "/" then [] else c ∷ drop_slash s

-- `s.replace(/\/api\/v1\/?$/, '')`: the first place where the rest of the text matches.
unfoldable pub drop_api : Text → Text
drop_api [] = []
drop_api (c ∷ s) =
    if (c ∷ s) === codes "/api/v1" || (c ∷ s) === codes "/api/v1/" then [] else c ∷ drop_api s

-- `s.replace(/^http/, 'ws')`
unfoldable pub http_to_ws : Text → Text
http_to_ws s = if starts_with (codes "http") s then codes "ws" ++ slice 4 s else s

-- The first `if` of api.ts: a bare host gets a scheme.
unfoldable pub with_scheme : Text → Text
with_scheme s =
    if not (s === [])
      && not (starts_with (codes "/") s)
      && not (starts_with (codes "http://") s)
      && not (starts_with (codes "https://") s)
    then codes "https://" ++ s
    else s

-- The second `if`: an address gets the path of the API.
unfoldable pub with_path : Text → Text
with_path s =
    if starts_with (codes "http") s && not (ends_with (codes "/api/v1") s)
    then drop_slash s ++ codes "/api/v1"
    else s

unfoldable pub api_base : Text → Text
unfolding with_scheme with_path
api_base api_url = with_path (with_scheme (if api_url === [] then codes "/api/v1" else api_url))

-- `ws_url` is VITE_WS_URL, and `secure` and `host` are read from `window.location`.
unfoldable pub socket_url : (ws_url api_url : Text) (secure : Bool) (host : Text) → Text
socket_url ws_url api_url secure host =
    if not (ws_url === [])
    then ws_url
    else if not (api_url === []) && starts_with (codes "http") api_url
    then drop_slash (drop_api (http_to_ws api_url)) ++ codes "/ws"
    else if not (api_url === []) && not (starts_with (codes "/") api_url)
    then codes "wss://" ++ (drop_slash (drop_api api_url) ++ codes "/ws")
    else (if secure then codes "wss:" else codes "ws:") ++ (codes "//" ++ (host ++ codes "/ws"))

unfoldable pub health_url : Text → Text
health_url api_url =
    if not (api_url === []) && starts_with (codes "http") api_url
    then drop_slash (drop_api api_url) ++ codes "/health"
    else if not (api_url === []) && not (starts_with (codes "/") api_url)
    then codes "https://" ++ (drop_slash (drop_api api_url) ++ codes "/health")
    else codes "/health"
