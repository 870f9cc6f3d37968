-- ===== src/UseApi/Execution/Tests.antt =====
-- A page that is loaded after two answers of an overloaded server.
use noant.Base.{ℕ, zero, suc, Text, codes, false, true, none, some, [], ◌∷◌, arith}
use noant.Json.{num, arr, nil, cons}
use noant.UseApi.{LastRequest, gets, Hook, Answer, fulfilled, api_error, execute}
use noant.UseApi.Execution.{Ended, execute-Ended}

abbrev hook : Hook
hook = record {
  payload = some (arr (cons (num 1) nil));
  loading = false;
  loading_more = false;
  error = none;
  last_request = none;
  toasts = record { last_toast_msg = []; last_toast_time = 0; shown = [] };
  calls = 0;
  requested = [];
  waits = [];
}

abbrev page : LastRequest
page = record { method = gets; endpoint = codes "/items?page=2"; body = none; is_form_data = none }

abbrev answers : LastRequest → ℕ → Answer
answers r zero = api_error (record { status = 503; message = codes "busy" })
answers r (suc zero) = api_error (record { status = 500; message = codes "down" })
answers r (suc (suc n)) = fulfilled (arr (cons (num 2) nil))

abbrev key : ℕ → Text
key n = n ∷ []

execute-Ended_example :
    Ended
      (λ t. t)
      key
      true
      4
      0
      (some (arr (cons (num 1) nil)))
      (execute (λ t. t) key answers (λ n. n) page 4 true 0 hook)
execute-Ended_example = execute-Ended (λ t. t) key true answers (λ n. n) page 4 hook (omega arith)
