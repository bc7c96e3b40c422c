-- ===== src/Socket.antt =====
-- What the servers around `epoll_wait` get from `recv` on a socket that does not block.
use my_linux_demo.Base.{ℕ, List}

-- EAGAIN or EWOULDBLOCK, another error, the end, or some bytes.
pub data Received : Type 0 where
  would_block broken ended : Received
  content : List ℕ → Received
