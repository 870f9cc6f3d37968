-- ===== src/Widget/Address/Tests.antt =====
-- The widget on a page with a script of its own.
use noant.Base.{codes, [], ◌∷◌, ◌≡◌, refl}
use noant.Widget.Address.{get_base_url, get_base_url_of_host}

get_base_url_of_host_test :
    get_base_url (codes "https://shop.test/a.js" ∷ codes "https://app.noant.ai/widget.js" ∷ [])
    ≡ codes "https://app.noant.ai/api/v1"
get_base_url_of_host_test =
    get_base_url_of_host (codes "https://app.noant.ai") [] (codes "https://shop.test/a.js" ∷ [])
      (refl, tt) refl refl

-- A widget that is served from a host of another name asks the page's own server.
other_host : get_base_url (codes "https://cdn.test/widget.js" ∷ []) ≡ []
unfolding get_base_url
other_host = refl
