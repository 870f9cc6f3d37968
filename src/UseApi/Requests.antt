-- ===== src/UseApi/Requests.antt =====
-- The requests that useAPI gives to a component: `get`, `post`, `put`, `del`, `loadMore` and `retry` of
-- frontend/src/hooks/useAPI.ts.
pub mod Retry
use noant.Base.{ℕ, Text, codes, Bool, true, false, Option, none, some, List, [], ◌∷◌}
use noant.Json.{Value}
use noant.UseApi.{
  Verb, gets, posts, puts, deletes, LastRequest, Hook, Answer, Outcome, Run, execute,
}

-- The hook, and the toasts of `retry`, the newest first.
pub record Client : Type 0 where
  pub hook : Hook
  pub said : List Text

-- `none` is a run that is out of fuel, `some (none, c)` a promise of `undefined`.
abbrev pub Ending : Type 0
Ending = Option (Option Outcome × Client)

pub called : Client → Run → Ending
called c none = none
called c (some (o, h)) = some (some o, record c { hook = h })

abbrev pub plain : Verb → Text → LastRequest
plain verb endpoint = record {
  method = verb;
  endpoint = endpoint;
  body = none;
  is_form_data = none;
}

module _ (lower : Text → Text) (key : ℕ → Text) (answer : LastRequest → ℕ → Answer) (clock : ℕ → ℕ)
    (fuel : ℕ) where
  pub call : (is_load_more : Bool) → LastRequest → Client → Ending
  unfolding called
  call is_load_more r c = called c (execute lower key answer clock r fuel is_load_more 0 c.hook)

  pub get : Text → Client → Ending
  unfolding call
  get endpoint c = call false (plain gets endpoint) c

  pub post : Text → Option Value → Option Bool → Client → Ending
  unfolding call
  post endpoint body is_form_data c =
      call false
        (record { method = posts; endpoint = endpoint; body = body; is_form_data = is_form_data }) c

  pub put : Text → Option Value → Client → Ending
  unfolding call
  put endpoint body c =
      call false (record { method = puts; endpoint = endpoint; body = body; is_form_data = none }) c

  pub del : Text → Client → Ending
  unfolding call
  del endpoint c = call false (plain deletes endpoint) c

  pub load_page : Text → Client → Ending
  unfolding call
  load_page endpoint c = call true (plain gets endpoint) c

  pub retried : Option LastRequest → Client → Ending
  unfolding call
  retried none c = some (none, record c { said = codes "Nothing to retry" ∷ c.said })
  retried (some r) c = call false r c

  pub retry : Client → Ending
  unfolding retried
  retry c = retried c.hook.last_request c
