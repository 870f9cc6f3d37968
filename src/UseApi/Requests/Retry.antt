-- ===== src/UseApi/Requests/Retry.antt =====
-- What a retry asks for, and what it does to the pages that are loaded.
mod Tests
use noant.Base.{
  ℕ, ◌+◌, ◌≤◌, Text, Bool, true, false, Option, none, some, List, [], ◌∷◌, ◌≡◌, refl, sym, subst,
  arith,
}
use noant.Json.{Value}
use noant.UseApi.{
  gets, LastRequest, Hook, Answer, fulfilled, Outcome, returned, threw, Run, received, execute,
}
use noant.UseApi.Execution.{Ended, execute-Ended}
use noant.UseApi.Asked.{IsAsked, Asks, execute-Asks}
use noant.UseApi.Requests.{Client, Ending, called, call, plain, load_page, retried, retry}

-- The ending is no lack of fuel, and what it leaves has the property.
abbrev pub Then : Ending → (Option Outcome → Client → Type 0) → Type 0
Then none P = ⊥
Then (some (o, c)) P = P o c

-- The client `d` behind requests of `r` that the client `c` made, at least one: a value that is returned
-- is the last answer to `r` and all that `d` has; an error leaves what `c` had.
abbrev pub Replaced :
    (LastRequest → ℕ → Answer) → LastRequest → Client → Option Outcome → Client → Type 0
Replaced answer r c none d = ⊥
Replaced answer r c (some (returned v)) d =
    IsAsked r c.hook.requested d.hook
    × (d.hook.payload ≡ some v)
    × ((n : ℕ) × (answer r n ≡ fulfilled v) × (d.hook.calls ≡ n + 1))
Replaced answer r c (some (threw e)) d =
    IsAsked r c.hook.requested d.hook × (d.hook.payload ≡ c.hook.payload)

module _ (lower : Text → Text) (key : ℕ → Text) (answer : LastRequest → ℕ → Answer) where
  called-Then :
      (is_load_more : Bool) (n k : ℕ) (r : LastRequest) (c : Client) (run : Run)
      (P : Option Outcome → Client → Type 0)
      → Ended lower key is_load_more n k c.hook.payload run
      → Asks answer r c.hook.requested run
      → ((o : Option Outcome) (d : Client) → IsAsked r c.hook.requested d.hook → P o d)
      → Then (called c run) P
  unfolding called
  called-Then is_load_more n k r c none P e a f = elim e [ ]
  called-Then is_load_more n k r c (some (returned v, h)) P e (a, b) f = f _ _ a
  called-Then is_load_more n k r c (some (threw x, h)) P e a f = f _ _ a

  called-Replaced :
      (n k : ℕ) (r : LastRequest) (c : Client) (run : Run)
      → Ended lower key false n k c.hook.payload run
      → Asks answer r c.hook.requested run
      → Then (called c run) (Replaced answer r c)
  unfolding called received
  called-Replaced n k r c none e a = elim e [ ]
  called-Replaced n k r c (some (returned v, h)) e (a, b) = (a, e.3, b)
  called-Replaced n k r c (some (threw x, h)) e a = (a, e.3)

  module _ (clock : ℕ → ℕ) (fuel : ℕ) (enough : 4 ≤ fuel) where
    retried_lem :
        (r : LastRequest) (o : Option LastRequest) (c : Client)
        → o ≡ some r
        → Then (retried lower key answer clock fuel o c) (Replaced answer r c)
    unfolding retried call
    retried_lem r o c e =
        subst (λ p. Then (retried lower key answer clock fuel p c) (Replaced answer r c)) (sym e)
          (called-Replaced 4 c.hook.calls r c (execute lower key answer clock r fuel false 0 c.hook)
            (execute-Ended lower key false answer clock r fuel c.hook enough)
            (execute-Asks answer r lower key false clock fuel 0 c.hook))

    -- However a further page is asked for, and whatever becomes of it, a retry asks for that page again,
    -- and for nothing else, but as for a first one: when it gets a value, which is the last answer to
    -- this request, this is all that the client has, and the pages that were loaded before are lost; when
    -- it fails, they stay. Both end, with fuel for four attempts, and both ask at least once.
    pub retry-load_page :
        (endpoint : Text) (c : Client)
        → let page = plain gets endpoint in
          Then (load_page lower key answer clock fuel endpoint c) (λ o d.
            IsAsked page c.hook.requested d.hook
            × Then (retry lower key answer clock fuel d) (Replaced answer page d))
    unfolding load_page call retry
    retry-load_page endpoint c =
        let page : LastRequest = plain gets endpoint in
        called-Then true 4 c.hook.calls page c
          (execute lower key answer clock page fuel true 0 c.hook) _
          (execute-Ended lower key true answer clock page fuel c.hook enough)
          (execute-Asks answer page lower key true clock fuel 0 c.hook)
          (λ o d a. (a, retried_lem page d.hook.last_request d a.last_request))
