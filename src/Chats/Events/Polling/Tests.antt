-- ===== src/Chats/Events/Polling/Tests.antt =====
-- 31 ticks, with two pages that bring nothing new.
use noant.Base.{codes, true, false, none, some, List, [], ◌∷◌, ◌++◌, refl, arith}
use noant.Chats.{Chat}
use noant.Chats.Events.{initial}
use noant.Chats.Events.Polling.{Poll, ticks, answers, run_polls, IsOver, begun-IsOver}

abbrev waiting : Chat
waiting = record initial {
  active_id = some (codes "c1");
  pending_ai = codes "c1" ∷ [];
  polling = true;
}

abbrev ten : List Poll
ten = ticks ∷ ticks ∷ ticks ∷ ticks ∷ ticks ∷ ticks ∷ ticks ∷ ticks ∷ ticks ∷ ticks ∷ []

abbrev silence : List Poll
silence =
    answers none
    ∷ answers (some (record { messages = []; has_more = false }))
    ∷ (ten ++ ten ++ ten ++ ticks ∷ [])

begun-IsOver_example : IsOver 0 (run_polls silence waiting)
begun-IsOver_example =
    begun-IsOver silence waiting refl refl refl (tt, (refl, omega arith)) (omega arith)
