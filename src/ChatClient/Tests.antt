-- ===== src/ChatClient/Tests.antt =====
-- Two clients and the server, run.
use my_linux_demo.Base.{◌≡◌, refl, Option, none, some, List, [], ◌∷◌}
use my_linux_demo.Socket.{would_block, broken, content}
use my_linux_demo.Chatroom
use my_linux_demo.Chatroom.{ChatEvent}
use my_linux_demo.ChatClient.{
  TalkEvent, typed, readable, send, print, close, receive_loop, on_talk, talk_batch, talk_loop,
}

-- The client 6 writes, and the client 5 gets it in other pieces.
abbrev writer : List (Option (List TalkEvent))
writer = some (typed (1 ∷ 2 ∷ []) ∷ []) ∷ some (typed (3 ∷ []) ∷ []) ∷ []

abbrev at_server : List ChatEvent
at_server = Chatroom.readable 6 (content (1 ∷ []) ∷ content (2 ∷ 3 ∷ []) ∷ would_block ∷ []) ∷ []

abbrev reader : List (Option (List TalkEvent))
reader = some (readable (content (1 ∷ 2 ∷ 3 ∷ []) ∷ would_block ∷ []) ∷ []) ∷ none ∷ []

client_run :
    talk_loop (some (typed (7 ∷ []) ∷ readable (content (8 ∷ []) ∷ broken ∷ []) ∷ []) ∷ [])
    ≡ send (7 ∷ []) ∷ print 1 (8 ∷ []) ∷ close ∷ []
unfolding talk_loop talk_batch on_talk receive_loop
client_run = refl
