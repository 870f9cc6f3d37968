-- ===== src/Widget/Memory/Tests.antt =====
-- A widget that waits for the answer of its first message in a conversation.
use noant.Base.{codes, true, some, [], ◌∷◌, map, ◌≡◌, refl}
use noant.Json.{str}
use noant.Widget.{Widget, type_text, enter, error, defaults, step, run}
use noant.Widget.Memory.{IsIn, run-IsIn, sent-enter}

abbrev waiting : Widget
waiting = record {
  config = defaults;
  is_open = true;
  messages = [];
  conversation_id = str (codes "c1");
  sending = true;
  typing = true;
  input = codes " more";
  sent =
      record { api_key = []; message = codes "hi"; conversation_id = some (str (codes "c1")) } ∷ [];
  in_flight = 1;
  screen = record { shown = []; dots = true; disabled = true };
}

run-IsIn_test : IsIn waiting.sent (run (error ∷ type_text (codes "hi") ∷ enter ∷ []) waiting)
unfolding noant.Json.truthy
run-IsIn_test = run-IsIn (error ∷ type_text (codes "hi") ∷ enter ∷ []) waiting refl

sent-enter_test :
    ((step enter waiting).input ≡ [])
    × (map (λ p. p.message) (step enter waiting).sent ≡ codes "hi" ∷ [])
sent-enter_test = sent-enter waiting (λ h. cc) refl
