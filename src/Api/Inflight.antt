-- ===== src/Api/Inflight.antt =====
-- `request` of frontend/src/lib/api.ts: the GET requests that are under way are shared. Promises
-- are numbered in the order in which `doRequest` is called.
pub mod Single
use noant.Base.{
  ℕ, ◌+◌, ◌==◌, Text, ◌===◌, Bool, true, false, Option, none, some, List, [], ◌∷◌, if◌then◌else◌,
}

abbrev pub Promises : Type 0
Promises = List (Text × ℕ)

-- `inflightRequests`, and the promises of GET requests that are not settled, each with its address.
pub record Pool : Type 0 where
  pub inflight_requests : Promises
  pub pending : Promises
  pub next : ℕ

-- `inflightRequests.get(key)`, `none` if it does not have the key
pub get_promise : Text → Promises → Option ℕ
get_promise key [] = none
get_promise key ((k, p) ∷ l) = if k === key then some p else get_promise key l

-- `inflightRequests.delete(key)`
pub delete_key : Text → Promises → Promises
delete_key key [] = []
delete_key key ((k, p) ∷ l) = let rest = delete_key key l in if k === key then l else (k, p) ∷ rest

-- `has`, and the new promise or the one that is there
pub shared : Text → Option ℕ → Pool → ℕ × Pool
shared endpoint (some p) s = (p, s)
shared endpoint none s = (
  s.next,
  record {
    inflight_requests = (endpoint, s.next) ∷ s.inflight_requests;
    pending = (endpoint, s.next) ∷ s.pending;
    next = s.next + 1;
  },
)

-- The promise that the caller gets; `is_get` is `method === 'GET'`.
pub request : (is_get : Bool) → Text → Pool → ℕ × Pool
unfolding shared get_promise
request true endpoint s = shared endpoint (get_promise endpoint s.inflight_requests) s
request false endpoint s = (s.next, record s { next = s.next + 1 })

-- The address of a promise, and what is left without it.
pub address_of : ℕ → Promises → Option Text
address_of p [] = none
address_of p ((k, q) ∷ l) = if q == p then some k else address_of p l

pub without : ℕ → Promises → Promises
without p [] = []
without p ((k, q) ∷ l) = let rest = without p l in if q == p then l else (k, q) ∷ rest

-- The `finally` of a promise that settles.
pub finally_at : Option Text → ℕ → Pool → Pool
finally_at none p s = s
finally_at (some key) p s = record s {
  inflight_requests = delete_key key s.inflight_requests;
  pending = without p s.pending;
}

pub settle : ℕ → Pool → Pool
unfolding finally_at delete_key without address_of
settle p s = finally_at (address_of p s.pending) p s

pub data Event : Type 0 where
  called : (is_get : Bool) → Text → Event
  settled : ℕ → Event

pub step : Event → Pool → Pool
unfolding request settle
step (called is_get endpoint) s = (request is_get endpoint s).1
step (settled p) s = settle p s

pub run : List Event → Pool → Pool
unfolding step
run [] s = s
run (e ∷ es) s = run es (step e s)

abbrev pub empty : Pool
empty = record { inflight_requests = []; pending = []; next = 0 }
