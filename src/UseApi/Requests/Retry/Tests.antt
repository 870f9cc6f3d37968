-- ===== src/UseApi/Requests/Retry/Tests.antt =====
-- A further page that the server refuses, and its retry.
use noant.Base.{ℕ, zero, suc, Text, codes, false, none, some, [], ◌∷◌, arith}
use noant.Json.{num, arr, nil, cons}
use noant.UseApi.Asked.{IsAsked}
use noant.UseApi.{LastRequest, gets, Answer, fulfilled, api_error}
use noant.UseApi.Requests.{Client, plain, load_page, retry}
use noant.UseApi.Requests.Retry.{Then, Replaced, retry-load_page}

abbrev client : Client
client = record {
  hook = record {
    payload = some (arr (cons (num 1) nil));
    loading = false;
    loading_more = false;
    error = none;
    last_request = none;
    toasts = record { last_toast_msg = []; last_toast_time = 0; shown = [] };
    calls = 0;
    requested = [];
    waits = [];
  };
  said = [];
}

abbrev refuses_once : LastRequest → ℕ → Answer
refuses_once r zero = api_error (record { status = 403; message = codes "no" })
refuses_once r (suc n) = fulfilled (arr (cons (num 2) nil))

abbrev key : ℕ → Text
key n = n ∷ []

retry-load_page_example :
    Then (load_page (λ t. t) key refuses_once (λ n. n) 4 (codes "/items?page=2") client) (λ o d.
      IsAsked (plain gets (codes "/items?page=2")) [] d.hook
      × Then
          (retry (λ t. t) key refuses_once (λ n. n) 4 d)
          (Replaced refuses_once (plain gets (codes "/items?page=2")) d))
retry-load_page_example =
    retry-load_page (λ t. t) key refuses_once (λ n. n) 4 (omega arith) (codes "/items?page=2")
      client
