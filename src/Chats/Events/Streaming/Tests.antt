-- ===== src/Chats/Events/Streaming/Tests.antt =====
-- An answer in two pieces.
use noant.Base.{codes, some}
use noant.Chats.{Chat}
use noant.Chats.Events.{initial}

abbrev open_chat : Chat
open_chat = record initial { active_id = some (codes "c1") }
