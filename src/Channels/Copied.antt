-- ===== src/Channels/Copied.antt =====
-- The mark of the webhook that was copied.
pub mod Tests
use noant.Base.{
  ℕ, zero, suc, Text, ◌===◌, ===_iff, ===_refl, length, Bool, true, false, ◌||◌, List, [], ◌∷◌,
  ◌++◌, if◌then◌else◌, ◌≡◌, refl, sym, ap, subst, arith, Bool-cases, inl, inr,
}
use noant.Review.Sets.{has}
use noant.Channels.{Integration, Channels, copied, fired, fire}

pub data Event : Type 0 where
  copies : Integration → Bool → Event
  fires : Event

pub step : Event → Channels → Channels
step (copies i ok) s = copied i ok s
step fires s = fire s

pub run : List Event → Channels → Channels
unfolding step
run [] s = s
run (e ∷ es) s = run es (step e s)

-- All the timers that are left.
pub fire_all : ℕ → Channels → Channels
fire_all zero s = s
fire_all (suc n) s = fire_all n (fire s)

-- The mark has a timer.
pub record IsTimed (s : Channels) : Type 0 where
  pub timed : (s.copied_webhook_id === [] || has s.copied_webhook_id s.timers) ≡ true

has-append_last : (x : Text) (s : List Text) → has x (s ++ (x ∷ [])) ≡ true
has-append_last x [] = ground (arith, ===_refl x)
has-append_last x (y ∷ s) = ground (arith, has-append_last x s)

timed_lem :
    (mark key : Text) (keys : List Text)
    → (mark === [] || has mark (key ∷ keys)) ≡ true
    → let left = if mark === key then [] else mark in (left === [] || has left keys) ≡ true
timed_lem mark key keys h = ground (arith, ===_iff mark key, ===_iff key mark)

fired-IsTimed :
    (keys : List Text) (s : Channels) → s.timers ≡ keys → IsTimed s → IsTimed (fired keys s)
fired-IsTimed [] s e i = i
fired-IsTimed (key ∷ keys) s e i = record {
  timed =
      timed_lem s.copied_webhook_id key keys
        (subst (λ ks. (s.copied_webhook_id === [] || has s.copied_webhook_id ks) ≡ true) e i.timed);
}

step-IsTimed : (e : Event) (s : Channels) → IsTimed s → IsTimed (step e s)
unfolding step copied fire
step-IsTimed (copies i true) s h = record {
  timed =
      let key = if i.id === [] then i.channel else i.id in
      ground (arith, has-append_last key s.timers);
}
step-IsTimed (copies i false) s h = h
step-IsTimed fires s h = fired-IsTimed s.timers s refl h

run-IsTimed : (es : List Event) (s : Channels) → IsTimed s → IsTimed (run es s)
unfolding run
run-IsTimed [] s i = i
run-IsTimed (e ∷ es) s i = run-IsTimed es (step e s) (step-IsTimed e s i)

fire_all_lem :
    (keys : List Text) (s : Channels)
    → s.timers ≡ keys
    → IsTimed s
    → (fire_all (length keys) s).copied_webhook_id ≡ []
unfolding fire_all fire
fire_all_lem [] s e i =
    let h =
      subst (λ ks. (s.copied_webhook_id === [] || has s.copied_webhook_id ks) ≡ true) e i.timed in
    ground (arith, ===_iff s.copied_webhook_id [])
fire_all_lem (key ∷ keys) s e i =
    subst (λ u. (fire_all (length keys) u).copied_webhook_id ≡ []) (sym (ap (λ ks. fired ks s) e))
      (fire_all_lem keys (fired (key ∷ keys) s) refl (fired-IsTimed (key ∷ keys) s e i))

-- However webhooks are copied, and whenever the timers fire in between: once the timers that are left
-- have fired, no webhook is marked as copied. At first none is.
pub fire_all-run :
    (es : List Event) (s : Channels)
    → s.copied_webhook_id ≡ []
    → let t = run es s in (fire_all (length t.timers) t).copied_webhook_id ≡ []
fire_all-run es s h =
    fire_all_lem (run es s).timers (run es s) refl
      (run-IsTimed es s (record { timed = ground arith }))
