-- ===== src/DualServer.antt =====
-- The echo server of unp/high_performance/epoll_tcp_udp.cpp, for TCP and UDP at one port: its loop
-- around `epoll_wait`. What the system calls give stands in the events.
pub mod Echo
pub mod Tests
use my_linux_demo.Base.{ℕ, zero, suc, Bool, true, false, Option, none, some, List, [], ◌∷◌, ◌++◌}
use my_linux_demo.Socket.{Received, would_block, broken, ended, content}

-- UDP_BUFFER_SIZE - 1
abbrev pub udp_size : ℕ
udp_size = 1023

-- An event: a new TCP client, the result of `recvfrom`, the results of `recv` on a client's
-- descriptor, or something else.
pub data EchoEvent : Type 0 where
  arrived : (connfd : ℕ) → EchoEvent
  datagram : (address : ℕ) → List ℕ → EchoEvent
  no_datagram : EchoEvent
  readable : (fd : ℕ) → List Received → EchoEvent
  other : EchoEvent

-- The system calls that the server makes, in order.
pub data EchoAction : Type 0 where
  watch close : (fd : ℕ) → EchoAction
  send : (fd : ℕ) → List ℕ → EchoAction
  sendto : (address : ℕ) → List ℕ → EchoAction

-- The first `n` bytes of a buffer that was set to 0 before it received `bs`.
unfoldable pub in_buffer : (n : ℕ) → List ℕ → List ℕ
in_buffer zero bs = []
in_buffer (suc n) [] = 0 ∷ in_buffer n []
in_buffer (suc n) (b ∷ bs) = b ∷ in_buffer n bs

-- `if(num>0)`
unfoldable pub answer_udp : (address : ℕ) → List ℕ → List EchoAction
answer_udp address [] = []
answer_udp address (b ∷ bs) = sendto address (in_buffer udp_size (b ∷ bs)) ∷ []

-- The `while` loop around `recv`. It goes on after the end of a connection.
unfoldable pub echo : (fd : ℕ) → List Received → List EchoAction
echo fd [] = []
echo fd (would_block ∷ rs) = []
echo fd (broken ∷ rs) = close fd ∷ []
echo fd (ended ∷ rs) = close fd ∷ echo fd rs
echo fd (content buf ∷ rs) = send fd buf ∷ echo fd rs

unfoldable pub on_event : EchoEvent → List EchoAction
on_event (arrived connfd) = watch connfd ∷ []
on_event (datagram address bs) = answer_udp address bs
on_event no_datagram = []
on_event (readable fd rs) = echo fd rs
on_event other = []

unfoldable pub on_batch : List EchoEvent → List EchoAction
on_batch [] = []
on_batch (e ∷ es) = on_event e ++ on_batch es

-- The loop of `main` on what the calls of `epoll_wait` give; `none` is an error.
unfoldable pub main_loop : (listenfd : ℕ) → List (Option (List EchoEvent)) → List EchoAction
main_loop listenfd [] = []
main_loop listenfd (none ∷ bs) = close listenfd ∷ []
main_loop listenfd (some es ∷ bs) = on_batch es ++ main_loop listenfd bs
