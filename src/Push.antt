-- ===== src/Push.antt =====
-- The hook of frontend/src/hooks/usePushNotifications.ts. Its button is disabled while an operation
-- runs, so an operation is one step here, with what the browser and the server answer.
pub mod Agreement
pub mod Key
use noant.Base.{
  ℕ, zero, suc, ◌+◌, ◌-◌, ◌%◌, ◌==◌, Text, ◌===◌, Bool, true, false, not, ◌&&◌, ◌||◌, Option, none,
  some, List, [], ◌∷◌, ◌++◌, length, map, if◌then◌else◌,
}

pub data Permission : Type 0 where
  default granted denied : Permission

-- `endpoint` is that of the subscription in the browser, if there is one.
pub record Push : Type 0 where
  pub permission : Permission
  pub subscribed : Bool
  pub loading : Bool
  pub supported : Bool
  pub endpoint : Option Text
  pub told : List Text

-- What an attempt meets: the permission, the worker, what `subscribe` of the browser gives, and
-- whether the server takes the request; `none` and `false` are errors.
pub record Attempt : Type 0 where
  pub permission : Option Permission
  pub ready : Bool
  pub created : Option Text
  pub posted : Bool

pub check_subscription : (ready : Bool) → Push → Push
check_subscription ready s = record s {
  subscribed = if ready then elim s.endpoint [ none ↦ false | some e ↦ true ] else false;
}

-- The effect of the hook.
pub mount : (supported ready : Bool) → Option Permission → Push → Push
unfolding check_subscription
mount supported ready none s = check_subscription ready (record s { supported = supported })
mount supported ready (some p) s =
    check_subscription ready (record s { supported = supported; permission = p })

-- The `finally` of both operations.
abbrev pub ended : Push → Push
ended s = record s { loading = false }

-- The subscription goes to the server.
pub post_subscription : Bool → Text → Push → Push
post_subscription false e s = ended s
post_subscription true e s = ended (record s { subscribed = true; told = e ∷ s.told })

-- The part of `subscribe` behind the permission.
pub subscribe_granted : Attempt → Push → Push
unfolding post_subscription
subscribe_granted a s = if not a.ready then ended s else elim s.endpoint [
  | some e ↦ post_subscription a.posted e s
  | none ↦ elim a.created [
    | none ↦ ended s
    | some e ↦ post_subscription a.posted e (record s { endpoint = some e })
  ]
]

pub ask_permission : Attempt → Push → Push
unfolding subscribe_granted
ask_permission a s = elim a.permission [
  | none ↦ ended s
  | some default ↦ ended (record s { permission = default })
  | some denied ↦ ended (record s { permission = denied })
  | some granted ↦ subscribe_granted a (record s { permission = granted })
]

-- `key` is VITE_VAPID_PUBLIC_KEY.
pub subscribe : (key : Text) → Attempt → Push → Push
unfolding ask_permission
subscribe key a s =
    if not s.supported || key === [] then s else ask_permission a (record s { loading = true })

-- What `unsubscribe` meets.
pub record Farewell : Type 0 where
  pub ready : Bool
  pub removed : Bool
  pub posted : Bool

pub post_unsubscription : Bool → Push → Push
post_unsubscription false s = ended s
post_unsubscription true s = ended (record s { subscribed = false })

pub unsubscribe : Farewell → Push → Push
unfolding post_unsubscription
unsubscribe f s = if not f.ready then ended s else elim s.endpoint [
  | none ↦ post_unsubscription f.posted s
  | some e ↦
      if f.removed then post_unsubscription f.posted (record s { endpoint = none }) else ended s
]

-- `urlBase64ToUint8Array` up to its `atob`: the padding, and the two letters that are replaced.
abbrev pub repeat : ℕ → Text
repeat zero = []
repeat (suc n) = 61 ∷ repeat n

abbrev pub replace : ℕ → ℕ
replace c = if c == 45 then 43 else if c == 95 then 47 else c

pub url_base64 : Text → Text
url_base64 base64 = map replace (base64 ++ repeat ((4 - length base64 % 4) % 4))

pub data Event : Type 0 where
  checks : (ready : Bool) → Event
  subscribes : Attempt → Event
  unsubscribes : Farewell → Event

pub run : (key : Text) → List Event → Push → Push
unfolding check_subscription subscribe unsubscribe
run key [] s = s
run key (checks ready ∷ es) s = run key es (check_subscription ready s)
run key (subscribes a ∷ es) s = run key es (subscribe key a s)
run key (unsubscribes f ∷ es) s = run key es (unsubscribe f s)
