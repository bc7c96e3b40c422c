-- ===== src/Chatroom.antt =====
-- The chat room of unp/high_performance/epoll_chatroom.cpp: the loop over a batch of events. What
-- the system calls give stands in the events.
pub mod Delivery
pub mod Inbox
pub mod Tests
use my_linux_demo.Socket.{Received, would_block, broken, ended, content}
use my_linux_demo.Base.{ℕ, Bool, true, false, List, [], ◌∷◌, ◌++◌, ◌==◌, if◌then◌else◌}

-- An event: a new client, the results of `recv` on a client's descriptor, or something else.
pub data ChatEvent : Type 0 where
  joined : (connfd : ℕ) → ChatEvent
  readable : (sockfd : ℕ) → List Received → ChatEvent
  other : ChatEvent

-- The system calls that the server makes, in order.
pub data ChatAction : Type 0 where
  watch close : (fd : ℕ) → ChatAction
  send : (fd : ℕ) → List ℕ → ChatAction

-- The loop over `client_list_fd`.
unfoldable pub broadcast : (client_list_fd : List ℕ) → (sender : ℕ) → List ℕ → List ChatAction
broadcast [] sender buf = []
broadcast (fd ∷ fds) sender buf =
    if fd == sender then broadcast fds sender buf else send fd buf ∷ broadcast fds sender buf

-- The `while` loop around `recv`. It goes on after the end of a connection, as the source does.
unfoldable pub read_loop :
    (client_list_fd : List ℕ) → (sockfd : ℕ) → List Received → List ChatAction
read_loop fds sockfd [] = []
read_loop fds sockfd (would_block ∷ rs) = []
read_loop fds sockfd (broken ∷ rs) = close sockfd ∷ []
read_loop fds sockfd (ended ∷ rs) = close sockfd ∷ read_loop fds sockfd rs
read_loop fds sockfd (content buf ∷ rs) = broadcast fds sockfd buf ++ read_loop fds sockfd rs

-- The loop over the events, with `client_list_fd` after it.
unfoldable pub on_events : (client_list_fd : List ℕ) → List ChatEvent → List ℕ × List ChatAction
on_events fds [] = (fds, [])
on_events fds (joined connfd ∷ es) =
    let (fds', out) = on_events (fds ++ connfd ∷ []) es in (fds', watch connfd ∷ out)
on_events fds (readable sockfd rs ∷ es) =
    let (fds', out) = on_events fds es in (fds', read_loop fds sockfd rs ++ out)
on_events fds (other ∷ es) = on_events fds es
