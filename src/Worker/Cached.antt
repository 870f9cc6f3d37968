-- ===== src/Worker/Cached.antt =====
-- What the worker's cache has, after any sequence of requests.
mod Tests
use noant.Base.{
  ℕ, Text, codes, ◌===◌, ===_iff, includes, Bool, true, false, not, ◌&&◌, Bool-cases, inl, inr,
  Option, none, some, List, [], ◌∷◌, if◌then◌else◌, if_intro, ◌≡◌, refl, sym, ap, ◌∙◌, subst, arith,
  Option-cases, ◌≢◌, ===-eq-false, ===_refl,
}
use noant.Worker.{
  Response, Request, Cache, find, put, kept, offline, network_first, fetched, cache_first, is_api,
  on_fetch, run,
}

find-put :
    (u v : Text) (r : Response) (cache : Cache)
    → find u (put v r cache) ≡ (if v === u then some r else find u cache)
unfolding find put
find-put u v r [] = refl
find-put u v r ((w, s) ∷ cache) =
    ground (arith, find-put u v r cache, ===_iff w v, ===_iff v u, ===_iff w u)

-- The response that counts for `u` behind an answer of the network: the last that is ok of an API
-- address, the first of any other.
abbrev pub newer : (api : Bool) → (before : Option Response) → Response → Option Response
newer true before r = if r.ok then some r else before
newer false (some s) r = some s
newer false none r = if r.ok then some r else none

abbrev pub counts : Text → Option Response → List (Request × Option Response) → Option Response
counts u before [] = before
counts u before ((request, none) ∷ es) = counts u before es
counts u before ((request, some r) ∷ es) =
    counts u
      (if request.method === codes "GET" && request.url === u
        then newer (is_api u) before r
        else before)
      es

find-kept :
    (u v : Text) (r : Response) (cache : Cache)
    → find u (kept v r cache) ≡ (if r.ok && v === u then some r else find u cache)
unfolding kept
find-kept u v r cache = ground (arith, find-put u v r cache)

-- What one request leaves for `u`.
abbrev after : Text → Option Response → Request → Option Response → Option Response
after u before request none = before
after u before request (some r) =
    if request.method === codes "GET" && request.url === u
    then newer (is_api u) before r
    else before

abbrev After : Text → Text → Option Response → Cache → Cache → Type 0
After u v o before cache = find u cache ≡ (elim o [
  | none ↦ find u before
  | some r ↦ if v === u then newer (is_api u) (find u before) r else find u before
])

find-network_first :
    (u v : Text) (o : Option Response) (cache : Cache)
    → is_api v ≡ true
    → After u v o cache (network_first v o cache).1
unfolding network_first
find-network_first u v none cache a = refl
find-network_first u v (some r) cache a = elim (Bool-cases (v === u)) [
  | inl e ↦ rw (find-kept u v r cache) (
      rw e (
        subst
          (λ w. (if r.ok && true then some r else find u cache) ≡ newer (is_api w) (find u cache) r)
          ((===_iff v u).0 e) (rw a (ground arith))))
  | inr e ↦ rw (find-kept u v r cache) (rw e (ground arith))
]

-- A request to `u` itself that finds nothing, and one to any other address.
find-fetched :
    (u v : Text) (o : Option Response) (cache : Cache)
    → is_api v ≡ false
    → (x : Option Response) → find v cache ≡ x
    → After u v o cache (fetched v o x cache).1
unfolding fetched
find-fetched u v none cache a none q = refl
find-fetched u v none cache a (some s) q = refl
find-fetched u v (some r) cache a (some s) q = by_text (v === u) refl
  where
    by_text :
        (b : Bool)
        → (v === u) ≡ b
        → find u cache ≡ (if b then newer (is_api u) (find u cache) r else find u cache)
    by_text false e = refl
    by_text true e =
        subst (λ w. find w cache ≡ newer (is_api w) (find w cache) r) ((===_iff v u).0 e)
          (rw a (rw q refl))
find-fetched u v (some r) cache a none q = find-kept u v r cache ∙ by_text (v === u) refl
  where
    by_text :
        (b : Bool)
        → (v === u) ≡ b
        → (if r.ok && b then some r else find u cache)
          ≡ (if b then newer (is_api u) (find u cache) r else find u cache)
    by_text false e = ground arith
    by_text true e =
        subst
          (λ w. (if r.ok && true then some r else find w cache) ≡ newer (is_api w) (find w cache) r)
          ((===_iff v u).0 e) (rw a (rw q (ground arith)))

find-answer :
    (u v : Text) (o : Option Response) (cache : Cache)
    → After u v o cache (if is_api v then network_first v o cache else cache_first v o cache).1
unfolding cache_first
find-answer u v o cache =
    if_intro (λ (p : Response × Cache). After u v o cache p.1) (is_api v) (network_first v o cache)
      (cache_first v o cache) (find-network_first u v o cache)
      (λ a. find-fetched u v o cache a (find v cache) refl)

find-on_fetch :
    (u : Text) (request : Request) (o : Option Response) (cache : Cache)
    → find u (on_fetch request o cache).1 ≡ after u (find u cache) request o
unfolding on_fetch
find-on_fetch u request none cache =
    if_intro (λ (p : Option Response × Cache). find u p.1 ≡ find u cache)
      (not (request.method === codes "GET")) (none, cache) _ (λ _. refl)
      (λ _. find-answer u request.url none cache)
find-on_fetch u request (some r) cache =
    if_intro (λ (p : Option Response × Cache). find u p.1 ≡ after u (find u cache) request (some r))
      (not (request.method === codes "GET")) (none, cache) _ (λ e. ground arith)
      (λ e. find-answer u request.url (some r) cache ∙ ground arith)

-- After any sequence of requests, whatever the network gave, what the cache has for an address is
-- the response that counts: of an address of the API the last that was ok, of any other the first.
pub find-run :
    (u : Text) (es : List (Request × Option Response)) (cache : Cache)
    → find u (run es cache) ≡ counts u (find u cache) es
unfolding run
find-run u [] cache = refl
find-run u ((request, none) ∷ es) cache =
    find-run u es _ ∙ ap (λ x. counts u x es) (find-on_fetch u request none cache)
find-run u ((request, some r) ∷ es) cache =
    find-run u es _ ∙ ap (λ x. counts u x es) (find-on_fetch u request (some r) cache)
