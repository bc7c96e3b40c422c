-- ===== src/ChatClient.antt =====
-- The client of the chat room, unp/high_performance/epoll_chatroom_client.cpp: its loop around
-- `epoll_wait`. What the system calls give stands in the events.
pub mod Relay
pub mod Tests
use my_linux_demo.Base.{before_nul, length, ℕ, Option, none, some, List, [], ◌∷◌, ◌++◌}
use my_linux_demo.Socket.{Received, would_block, broken, ended, content}

-- An event: what `read` gives of the input, or its failure; the results of `recv` on the socket; or
-- something else.
pub data TalkEvent : Type 0 where
  typed : List ℕ → TalkEvent
  input_failed : TalkEvent
  readable : List Received → TalkEvent
  other : TalkEvent

-- The calls of `send`, which fails with a negative length, and `close` on the socket, and the
-- message for the bytes of a `recv`, with its two arguments.
pub data TalkAction : Type 0 where
  send : List ℕ → TalkAction
  print : (num2 : ℕ) → (text : List ℕ) → TalkAction
  send_failed close : TalkAction

-- The `while` loop around `recv`. `%s` prints the buffer, which is filled up with NUL, to its first
-- NUL. It goes on after the end of the connection.
unfoldable pub receive_loop : List Received → List TalkAction
receive_loop [] = []
receive_loop (would_block ∷ rs) = []
receive_loop (broken ∷ rs) = close ∷ []
receive_loop (ended ∷ rs) = close ∷ receive_loop rs
receive_loop (content buf ∷ rs) = print (length buf) (before_nul buf) ∷ receive_loop rs

unfoldable pub on_talk : TalkEvent → List TalkAction
on_talk (typed buffer) = send buffer ∷ []
on_talk input_failed = send_failed ∷ []
on_talk (readable rs) = receive_loop rs
on_talk other = []

unfoldable pub talk_batch : List TalkEvent → List TalkAction
talk_batch [] = []
talk_batch (e ∷ es) = on_talk e ++ talk_batch es

-- The loop of `main` on what the calls of `epoll_wait` give; `none` is an error.
unfoldable pub talk_loop : List (Option (List TalkEvent)) → List TalkAction
talk_loop [] = []
talk_loop (none ∷ bs) = []
talk_loop (some es ∷ bs) = talk_batch es ++ talk_loop bs
