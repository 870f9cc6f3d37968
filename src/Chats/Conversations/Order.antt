-- ===== src/Chats/Conversations/Order.antt =====
-- The order in which the conversations are shown.
mod Tests
use noant.Base.{
  ℕ, ◌+◌, ◌≤◌, leb, ◌==◌, Text, Bool, true, false, List, [], ◌∷◌, keep_if, if_intro, if◌then◌else◌,
  ◌≡◌, refl, ap, ◌∙◌, arith, Bool-cases, inl, inr,
}
use noant.Chats.Conversations.{Conversation, insert, sorted_conversations}

-- No conversation stands above one that was updated later.
abbrev pub AreOlder : ℕ → List Conversation → Type 0
AreOlder t [] = Unit
AreOlder t (c ∷ cs) = (c.time ≤ t) × AreOlder t cs

abbrev pub IsSorted : List Conversation → Type 0
IsSorted [] = Unit
IsSorted (c ∷ cs) = AreOlder c.time cs × IsSorted cs

abbrev pub updated_at_time : ℕ → List Conversation → List Conversation
updated_at_time t cs = keep_if (λ c. c.time == t) cs

AreOlder-insert :
    (t : ℕ) (c : Conversation) (cs : List Conversation)
    → c.time ≤ t
    → AreOlder t cs
    → AreOlder t (insert c cs)
unfolding insert
AreOlder-insert t c [] h a = (h, tt)
AreOlder-insert t c (d ∷ ds) h a =
    if_intro (AreOlder t) (leb d.time c.time) (c ∷ d ∷ ds) (d ∷ insert c ds) (λ _. (h, a))
      (λ _. (a.0, AreOlder-insert t c ds h a.1))

AreOlder-le : (t u : ℕ) (cs : List Conversation) → t ≤ u → AreOlder t cs → AreOlder u cs
AreOlder-le t u [] h a = tt
AreOlder-le t u (c ∷ cs) h a = (omega (arith, a.0), AreOlder-le t u cs h a.1)

IsSorted-insert : (c : Conversation) (cs : List Conversation) → IsSorted cs → IsSorted (insert c cs)
unfolding insert
IsSorted-insert c [] s = (tt, tt)
IsSorted-insert c (d ∷ ds) s =
    if_intro IsSorted (leb d.time c.time) (c ∷ d ∷ ds) (d ∷ insert c ds)
      (λ e. ((ground arith, AreOlder-le d.time c.time ds (ground arith) s.0), s))
      (λ e. (AreOlder-insert d.time c ds (ground arith) s.0, IsSorted-insert c ds s.1))

updated_at_time-insert :
    (t : ℕ) (c : Conversation) (cs : List Conversation)
    → updated_at_time t (insert c cs) ≡ updated_at_time t (c ∷ cs)
unfolding insert
updated_at_time-insert t c [] = refl
updated_at_time-insert t c (d ∷ ds) = ground (arith, updated_at_time-insert t c ds)

sort-IsSorted : (cs : List Conversation) → IsSorted (sorted_conversations cs)
unfolding sorted_conversations
sort-IsSorted [] = tt
sort-IsSorted (c ∷ cs) = IsSorted-insert c (sorted_conversations cs) (sort-IsSorted cs)

updated_at_time-sort :
    (t : ℕ) (cs : List Conversation)
    → updated_at_time t (sorted_conversations cs) ≡ updated_at_time t cs
unfolding sorted_conversations
updated_at_time-sort t [] = refl
updated_at_time-sort t (c ∷ cs) =
    updated_at_time-insert t c (sorted_conversations cs)
    ∙ ap (λ l. if c.time == t then c ∷ l else l) (updated_at_time-sort t cs)

-- The conversations are shown from the one updated last to the one updated first; and those updated
-- at any one time are the same as in the list, as often and in the same order.
pub sorted_conversations_lem :
    (cs : List Conversation)
    → IsSorted (sorted_conversations cs)
      × ((t : ℕ) → updated_at_time t (sorted_conversations cs) ≡ updated_at_time t cs)
sorted_conversations_lem cs = (sort-IsSorted cs, λ t. updated_at_time-sort t cs)
