-- ===== src/Chats/Events/Consistent/Tests.antt =====
-- A conversation with an answer of the AI in it, and a message that is sent into it.
use noant.Base.{codes, true, false, some, List, [], ◌∷◌}
use noant.Json.{undefined}
use noant.Chats.Effects.{IsConsistent}
use noant.Chats.Events.{
  Incoming, Event, selects, first_page, ticks, message, sends, chunks, ai_placeholder, run, initial,
}
use noant.Chats.Events.Consistent.{run-initial-IsConsistent}

abbrev typing_on : Incoming
typing_on = record {
  type = codes "typing_indicator";
  conversation_id = codes "c1";
  content = [];
  sender_type = [];
  timestamp = [];
  id = [];
  is_typing = true;
  confidence = undefined;
  source = undefined;
  metadata = undefined;
}

abbrev visit : List Event
visit =
    selects (some (codes "c1"))
    ∷ first_page (
        some (record {
          messages = ai_placeholder (codes "m1") (codes "c1") [] ∷ [];
          has_more = false;
        }))
    ∷ message [] [] typing_on
    ∷ ticks
    ∷ sends (codes "t1") (codes "a1") [] (codes "hi")
    ∷ chunks (codes "a1") (codes "hello")
    ∷ []

run-initial-IsConsistent_example : IsConsistent (run visit initial)
run-initial-IsConsistent_example = run-initial-IsConsistent visit
