-- ===== src/UseApi.antt =====
-- The hook of frontend/src/hooks/useAPI.ts: retries, the merging of pages, and toasts. `answer r n`
-- is what becomes of the request `r` as the `n`-th call of the API.
pub mod Merge
pub mod Toasts
pub mod Execution
pub mod Asked
pub mod Requests
use noant.Base.{
  ℕ, zero, suc, ◌+◌, ◌*◌, ◌^◌, min, ltb, leb, ◌==◌, Text, codes, ◌===◌, includes, Bool, true, false,
  ◌||◌, ◌&&◌, Option, none, some, List, [], ◌∷◌, if◌then◌else◌,
}
use noant.Json.{Value, truthy}
use noant.UseApi.Merge.{merge_data}
use noant.UseApi.Toasts.{ToastLog, deduped_toast}

abbrev pub max_retries : ℕ
max_retries = 3

pub get_retry_delay : ℕ → ℕ
get_retry_delay attempt = min (1000 * 2 ^ attempt) 8000

pub record ApiError : Type 0 where
  pub status : ℕ
  pub message : Text

pub data Answer : Type 0 where
  fulfilled : Value → Answer
  api_error : ApiError → Answer
  other_error : Answer

-- `err instanceof APIError ? err : new APIError('Unknown error', 500)`
abbrev pub unknown_error : ApiError
unknown_error = record { status = 500; message = codes "Unknown error" }

-- `APIMethod`
pub data Verb : Type 0 where
  gets posts puts deletes : Verb

pub record LastRequest : Type 0 where
  pub method : Verb
  pub endpoint : Text
  pub body : Option Value
  pub is_form_data : Option Bool

-- `UseAPIState`, `lastRequest`, the toasts, the number of calls so far with what they asked for, and the
-- waits, the newest first.
pub record Hook : Type 0 where
  pub payload : Option Value
  pub loading : Bool
  pub loading_more : Bool
  pub error : Option ApiError
  pub last_request : Option LastRequest
  pub toasts : ToastLog
  pub calls : ℕ
  pub requested : List LastRequest
  pub waits : List ℕ

pub data Outcome : Type 0 where
  returned : Value → Outcome
  threw : ApiError → Outcome

-- `none` is a run that is out of fuel.
abbrev pub Run : Type 0
Run = Option (Outcome × Hook)

-- `lastRequest.current = …` and the `setState` before the call
begins : LastRequest → Bool → Hook → Hook
begins r is_load_more h = record h {
  last_request = some r;
  loading = if is_load_more then false else true;
  loading_more = is_load_more;
  error = none;
}

-- the `setState` and the toast of a call that is given up
gives_up : ApiError → ℕ → Hook → Hook
gives_up e now h = record h {
  loading = false;
  loading_more = false;
  error = some e;
  toasts =
      deduped_toast
        (if e.message === [] then codes "Request failed. Tap Retry to try again." else e.message)
        now h.toasts;
}

-- `lower` is `toLowerCase`, and `key` the text of an index.
module _ (lower : Text → Text) (key : ℕ → Text) where
  pub is_retryable_error : ApiError → Bool
  is_retryable_error error =
      leb 500 error.status || error.status == 0 || includes (codes "network") (lower error.message)

  -- `isLoadMore && prev.data ? mergeData(prev.data, data) : data`
  pub received : Bool → Option Value → Value → Value
  received true (some old) new = if truthy old then merge_data key old new else new
  received _ old new = new

  -- the `setState` behind the call
  pub succeeds : Bool → Value → Hook → Hook
  unfolding received
  succeeds is_load_more v h = record h {
    payload = some (received is_load_more h.payload v);
    loading = false;
    loading_more = false;
    error = none;
  }

  caught : (again : Hook → Run) → (attempt now : ℕ) → ApiError → Hook → Run
  unfolding is_retryable_error gives_up
  caught again attempt now e h =
      if is_retryable_error e && ltb attempt max_retries
      then again (record h { waits = get_retry_delay attempt ∷ h.waits })
      else some (threw e, gives_up e now h)

  settled : (again : Hook → Run) → Bool → (attempt now : ℕ) → Answer → Hook → Run
  unfolding caught succeeds
  settled again is_load_more attempt now (fulfilled v) h =
      some (returned v, succeeds is_load_more v h)
  settled again is_load_more attempt now (api_error e) h = caught again attempt now e h
  settled again is_load_more attempt now other_error h = caught again attempt now unknown_error h

  module _ (answer : LastRequest → ℕ → Answer) (clock : ℕ → ℕ) (r : LastRequest) where
    -- `execute` of the method, the endpoint, the body and `isFormData` of `r`; the clock is read at the
    -- end of the `n`-th call.
    pub execute : (fuel : ℕ) → Bool → (attempt : ℕ) → Hook → Run
    unfolding begins
    execute zero is_load_more attempt h = none
    execute (suc fuel) is_load_more attempt h =
        settled (execute fuel is_load_more (attempt + 1)) is_load_more attempt (clock h.calls)
          (answer r h.calls)
          (record (begins r is_load_more h) { calls = h.calls + 1; requested = r ∷ h.requested })
