-- ===== src/Endpoint/Agreement.antt =====
-- The addresses that the three functions make of one VITE_API_URL.
mod Tests
use noant.Base.{
  ℕ, ◌≤◌, Text, codes, length, length-append, ===_of_length, starts_with, ends_with,
  ends_with-append, Bool, true, false, ◌≡◌, ◌≢◌, refl, [], ◌∷◌, ◌++◌, append_assoc, sym, arith,
  if◌then◌else◌,
}
use noant.Endpoint.{drop_slash, drop_api, http_to_ws, api_base, socket_url, health_url}

drop_slash-cons : (c : ℕ) (s : Text) → 1 ≤ length s → drop_slash (c ∷ s) ≡ c ∷ drop_slash s
unfolding drop_slash
drop_slash-cons c s h = rw (===_of_length (c ∷ s) (codes "/") (omega arith))

drop_slash-append : (s : Text) → drop_slash (s ++ codes "/") ≡ s
unfolding drop_slash
drop_slash-append [] = refl
drop_slash-append (c ∷ s) =
    rw (drop_slash-cons c (s ++ codes "/") (omega (arith, length-append s (codes "/"))))
      (rw (drop_slash-append s))

-- A text that does not end in a slash is left alone.
drop_slash_of_none : (s : Text) → ends_with (codes "/") s ≡ false → drop_slash s ≡ s
unfolding drop_slash
drop_slash_of_none [] h = refl
drop_slash_of_none (c ∷ s) h = ground (arith, drop_slash_of_none s)

drop_api-cons : (c : ℕ) (s : Text) → 8 ≤ length s → drop_api (c ∷ s) ≡ c ∷ drop_api s
unfolding drop_api
drop_api-cons c s h = rw (
  ===_of_length (c ∷ s) (codes "/api/v1") (omega arith),
  ===_of_length (c ∷ s) (codes "/api/v1/") (omega arith),
)

drop_api-cons_plain : (c : ℕ) → drop_api (c ∷ codes "/api/v1") ≡ c ∷ []
unfolding drop_api
drop_api-cons_plain c = ground arith

pub drop_api-append : (s : Text) → drop_api (s ++ codes "/api/v1") ≡ s
unfolding drop_api
drop_api-append [] = refl
drop_api-append (c ∷ []) = drop_api-cons_plain c
drop_api-append (c ∷ d ∷ s) = rw (
  drop_api-cons c ((d ∷ s) ++ codes "/api/v1") (omega (arith, length-append s (codes "/api/v1"))),
  drop_api-append (d ∷ s),
)

pub drop_api-append_slash : (s : Text) → drop_api (s ++ codes "/api/v1/") ≡ s
unfolding drop_api
drop_api-append_slash [] = refl
drop_api-append_slash (c ∷ s) = rw (
  drop_api-cons c (s ++ codes "/api/v1/") (omega (arith, length-append s (codes "/api/v1/"))),
  drop_api-append_slash s,
)

-- Where the deployment is served: `q` is a host, perhaps with a port and a path.
abbrev pub site : Bool → Text → Text
site secure q = (if secure then codes "https://" else codes "http://") ++ q

abbrev pub socket_site : Bool → Text → Text
socket_site secure q = (if secure then codes "wss://" else codes "ws://") ++ q

-- What is left of the address, with and without the slash behind it.
drop_both :
    (p : Text) → ends_with (codes "/") p ≡ false → drop_slash (drop_api (p ++ codes "/api/v1")) ≡ p
drop_both p h = rw drop_api-append (drop_slash_of_none p h)

drop_both_slash :
    (p : Text) → ends_with (codes "/") p ≡ false → drop_slash (drop_api (p ++ codes "/api/v1/")) ≡ p
drop_both_slash p h = rw drop_api-append_slash (drop_slash_of_none p h)

ends_with-append_slash : (s : Text) → ends_with (codes "/api/v1") (s ++ codes "/api/v1/") ≡ false
ends_with-append_slash [] = refl
ends_with-append_slash (c ∷ s) = rw (
  ===_of_length (codes "/api/v1") (c ∷ (s ++ codes "/api/v1/"))
      (omega (arith, length-append s (codes "/api/v1/"))),
  ends_with-append_slash s,
)

api_base-append_slash :
    (secure : Bool) (q : Text)
    → api_base (site secure q ++ codes "/api/v1/") ≡ site secure q ++ codes "/api/v1/api/v1"
unfolding api_base
api_base-append_slash true q = rw (
  ends_with-append_slash (site true q),
  sym (append_assoc (site true q) (codes "/api/v1") (codes "/")),
  drop_slash-append (site true q ++ codes "/api/v1"),
  append_assoc (site true q) (codes "/api/v1") (codes "/api/v1"),
)
api_base-append_slash false q = rw (
  ends_with-append_slash (site false q),
  sym (append_assoc (site false q) (codes "/api/v1") (codes "/")),
  drop_slash-append (site false q ++ codes "/api/v1"),
  append_assoc (site false q) (codes "/api/v1") (codes "/api/v1"),
)

api_base-append :
    (secure : Bool) (q : Text)
    → api_base (site secure q ++ codes "/api/v1") ≡ site secure q ++ codes "/api/v1"
unfolding api_base
api_base-append true q = rw (ends_with-append (codes "/api/v1") (site true q))
api_base-append false q = rw (ends_with-append (codes "/api/v1") (site false q))

socket_url-append :
    (secure page : Bool) (q host : Text)
    → ends_with (codes "/") (socket_site secure q) ≡ false
    → socket_url [] (site secure q ++ codes "/api/v1") page host
      ≡ socket_site secure q ++ codes "/ws"
unfolding socket_url http_to_ws
socket_url-append true page q host h = rw (drop_both (socket_site true q) h)
socket_url-append false page q host h = rw (drop_both (socket_site false q) h)

health_url-append :
    (secure : Bool) (q : Text)
    → ends_with (codes "/") (site secure q) ≡ false
    → health_url (site secure q ++ codes "/api/v1") ≡ site secure q ++ codes "/health"
unfolding health_url
health_url-append true q h = rw (drop_both (site true q) h)
health_url-append false q h = rw (drop_both (site false q) h)

-- A deployment at `q` (a host, perhaps with a port and a path, not ending in a slash) that is
-- configured as `http(s)://q/api/v1` is asked at that address, at `ws(s)://q/ws` and at
-- `http(s)://q/health`, whatever page the client runs in.
pub addresses_agree :
    (secure page : Bool) (q host : Text)
    → 1 ≤ length q
    → ends_with (codes "/") q ≡ false
    → (api_base (site secure q ++ codes "/api/v1") ≡ site secure q ++ codes "/api/v1")
      × (socket_url [] (site secure q ++ codes "/api/v1") page host
          ≡ socket_site secure q ++ codes "/ws")
      × (health_url (site secure q ++ codes "/api/v1") ≡ site secure q ++ codes "/health")
addresses_agree true page (c ∷ q) host n h = (
  api_base-append true (c ∷ q),
  socket_url-append true page (c ∷ q) host h,
  health_url-append true (c ∷ q) h,
)
addresses_agree false page (c ∷ q) host n h = (
  api_base-append false (c ∷ q),
  socket_url-append false page (c ∷ q) host h,
  health_url-append false (c ∷ q) h,
)
addresses_agree _ page [] host n h = absurd (omega arith)

-- With a slash behind `/api/v1` the health check and the socket find the same addresses as without
-- it, and the requests go to a doubled path, `http(s)://q/api/v1/api/v1`.
pub doubled_path :
    (secure page : Bool) (q host : Text)
    → 1 ≤ length q
    → ends_with (codes "/") q ≡ false
    → (api_base (site secure q ++ codes "/api/v1/") ≡ site secure q ++ codes "/api/v1/api/v1")
      × (socket_url [] (site secure q ++ codes "/api/v1/") page host
          ≡ socket_site secure q ++ codes "/ws")
      × (health_url (site secure q ++ codes "/api/v1/") ≡ site secure q ++ codes "/health")
unfolding socket_url http_to_ws health_url
doubled_path true page (c ∷ q) host n h = (
  api_base-append_slash true (c ∷ q),
  rw (drop_both_slash (socket_site true (c ∷ q)) h),
  rw (drop_both_slash (site true (c ∷ q)) h),
)
doubled_path false page (c ∷ q) host n h = (
  api_base-append_slash false (c ∷ q),
  rw (drop_both_slash (socket_site false (c ∷ q)) h),
  rw (drop_both_slash (site false (c ∷ q)) h),
)
doubled_path _ page [] host n h = absurd (omega arith)
