-- ===== src/Endpoint/Agreement/Tests.antt =====
-- Addresses of concrete deployments.
use noant.Base.{Text, codes, ◌≡◌, refl, true, false, [], ◌++◌, arith}
use noant.Endpoint.{drop_slash, drop_api, http_to_ws, api_base, socket_url, health_url}
use noant.Endpoint.Agreement.{site, addresses_agree, doubled_path}

abbrev host : Text
host = codes "noant.app"

addresses_agree_example :
    (api_base (site true host ++ codes "/api/v1") ≡ codes "https://noant.app/api/v1")
    × (socket_url [] (site true host ++ codes "/api/v1") false [] ≡ codes "wss://noant.app/ws")
    × (health_url (site true host ++ codes "/api/v1") ≡ codes "https://noant.app/health")
addresses_agree_example = addresses_agree true false host [] (omega arith) refl

doubled_path_test :
    (api_base (site true host ++ codes "/api/v1/") ≡ codes "https://noant.app/api/v1/api/v1")
    × (socket_url [] (site true host ++ codes "/api/v1/") false [] ≡ codes "wss://noant.app/ws")
    × (health_url (site true host ++ codes "/api/v1/") ≡ codes "https://noant.app/health")
doubled_path_test = doubled_path true false host [] (omega arith) refl

-- A bare host.
bare_host : socket_url [] (codes "noant.app/") false [] ≡ codes "wss://noant.app/ws"
unfolding socket_url drop_slash drop_api
bare_host = refl

-- The page's own host.
own_host : socket_url [] [] false (codes "localhost:80") ≡ codes "ws://localhost:80/ws"
unfolding socket_url
own_host = refl

-- A bare host whose name begins with `http` is taken for an address with a scheme.
http_host : socket_url [] (codes "httpd.app") false [] ≡ codes "wsd.app/ws"
unfolding socket_url drop_slash drop_api http_to_ws
http_host = refl
