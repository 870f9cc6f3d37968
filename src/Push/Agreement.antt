-- ===== src/Push/Agreement.antt =====
-- What the hook says and what the browser has.
mod Tests
use noant.Base.{
  Text, ◌===◌, Bool, true, false, not, ◌&&◌, ◌||◌, Option, none, some, List, [], ◌∷◌, ◌≡◌, refl,
  arith, if_intro, if◌then◌else◌,
}
use noant.Push.{
  Permission, default, granted, denied, Push, Attempt, Farewell, check_subscription,
  post_subscription, subscribe_granted, ask_permission, subscribe, post_unsubscription, unsubscribe,
  Event, checks, subscribes, unsubscribes, run, ended,
}

abbrev pub is_some : Option Text → Bool
is_some none = false
is_some (some e) = true

-- No operation is left running, and `subscribed` is there for a subscription of the browser.
pub record IsHonest (s : Push) : Type 0 where
  pub idle : s.loading ≡ false
  pub honest : (s.subscribed && not (is_some s.endpoint)) ≡ false

-- The server takes the end of each subscription that the browser ends.
abbrev pub is_told : Event → Bool
is_told (unsubscribes f) = f.posted || not f.removed
is_told _ = true

abbrev pub all_told : List Event → Bool
all_told [] = true
all_told (e ∷ es) = is_told e && all_told es

-- The same while an operation runs.
abbrev Honest : Push → Type 0
Honest s = (s.subscribed && not (is_some s.endpoint)) ≡ false

check_subscription-IsHonest : (r : Bool) (s : Push) → IsHonest s → IsHonest (check_subscription r s)
unfolding check_subscription
check_subscription-IsHonest r s i = ground arith

post_subscription-IsHonest :
    (ok : Bool) (e : Text) (s : Push) → s.endpoint ≡ some e → IsHonest (post_subscription ok e s)
unfolding post_subscription
post_subscription-IsHonest true e s h = ground arith
post_subscription-IsHonest false e s h = ground arith

subscribe_granted-IsHonest : (a : Attempt) (s : Push) → Honest s → IsHonest (subscribe_granted a s)
unfolding subscribe_granted
subscribe_granted-IsHonest a s h = ground (arith, post_subscription-IsHonest a.posted)

ask_permission-IsHonest : (a : Attempt) (s : Push) → Honest s → IsHonest (ask_permission a s)
unfolding ask_permission
ask_permission-IsHonest a s h = ground (arith, subscribe_granted-IsHonest a)

subscribe-IsHonest :
    (key : Text) (a : Attempt) (s : Push) → IsHonest s → IsHonest (subscribe key a s)
unfolding subscribe
subscribe-IsHonest key a s i =
    if_intro (λ t. IsHonest t) (not s.supported || key === []) s
      (ask_permission a (record s { loading = true })) (λ e. i)
      (λ e. ask_permission-IsHonest a (record s { loading = true }) i.honest)

unsubscribe-IsHonest :
    (f : Farewell) (s : Push)
    → (f.posted || not f.removed) ≡ true
    → IsHonest s
    → IsHonest (unsubscribe f s)
unfolding unsubscribe post_unsubscription
unsubscribe-IsHonest f s h i = ground arith

-- From an honest state, after any operations, successful or not, of which the server is told when a
-- subscription ends, none is left running and the hook says `subscribed` only if the browser has a
-- subscription.
pub run-IsHonest :
    (key : Text) (es : List Event) (s : Push)
    → all_told es ≡ true
    → IsHonest s
    → IsHonest (run key es s)
unfolding run
run-IsHonest key [] s h i = i
run-IsHonest key (checks r ∷ es) s h i =
    run-IsHonest key es (check_subscription r s) (ground arith) (check_subscription-IsHonest r s i)
run-IsHonest key (subscribes a ∷ es) s h i =
    run-IsHonest key es (subscribe key a s) (ground arith) (subscribe-IsHonest key a s i)
run-IsHonest key (unsubscribes f ∷ es) s h i =
    run-IsHonest key es (unsubscribe f s) (ground arith) (unsubscribe-IsHonest f s (ground arith) i)
