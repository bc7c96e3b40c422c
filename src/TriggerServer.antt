-- ===== src/TriggerServer.antt =====
-- The two ways to serve the events of a batch in unp/high_performance/epoll_LT_ET_servertest.cpp,
-- level triggered and edge triggered. What the system calls give stands in the events.
pub mod Levels
pub mod Tests
use my_linux_demo.Base.{
  before_nul, length, ℕ, Bool, true, false, Option, none, some, List, [], ◌∷◌, ◌++◌,
}
use my_linux_demo.Socket.{Received, would_block, broken, ended, content}

-- An event: a new client, the results of `recv` on a client's descriptor, or something else.
pub data TriggerEvent : Type 0 where
  arrived : (clientfd : ℕ) → TriggerEvent
  readable : (sockfd : ℕ) → List Received → TriggerEvent
  other : TriggerEvent

-- `addfd` with its `enable_et`, `close`, and what is printed: the message for the bytes of a
-- `recv`, with its two arguments, and the fixed messages. `%s` prints the buffer, which is filled
-- up with NUL, to its first NUL.
pub data TriggerAction : Type 0 where
  addfd : (fd : ℕ) → (enable_et : Bool) → TriggerAction
  close : (fd : ℕ) → TriggerAction
  printed : (ret : ℕ) → (text : List ℕ) → TriggerAction
  event_target_once read_later something_else wait_error : TriggerAction

-- One `recv`, behind the message of the event; every failure closes the socket.
unfoldable pub read_once : (sockfd : ℕ) → List Received → List TriggerAction
read_once sockfd [] = []
read_once sockfd (content buf ∷ rs) = printed (length buf) (before_nul buf) ∷ []
read_once sockfd (r ∷ rs) = close sockfd ∷ []

unfoldable pub use_lt : List TriggerEvent → List TriggerAction
use_lt [] = []
use_lt (arrived clientfd ∷ es) = addfd clientfd false ∷ use_lt es
use_lt (readable sockfd rs ∷ es) = event_target_once ∷ (read_once sockfd rs ++ use_lt es)
use_lt (other ∷ es) = something_else ∷ use_lt es

-- The `while` loop around `recv`. It goes on after the end of a connection.
unfoldable pub read_all : (sockfd : ℕ) → List Received → List TriggerAction
read_all sockfd [] = []
read_all sockfd (would_block ∷ rs) = read_later ∷ []
read_all sockfd (broken ∷ rs) = close sockfd ∷ []
read_all sockfd (ended ∷ rs) = close sockfd ∷ read_all sockfd rs
read_all sockfd (content buf ∷ rs) = printed (length buf) (before_nul buf) ∷ read_all sockfd rs

unfoldable pub use_et : List TriggerEvent → List TriggerAction
use_et [] = []
use_et (arrived clientfd ∷ es) = addfd clientfd true ∷ use_et es
use_et (readable sockfd rs ∷ es) = event_target_once ∷ (read_all sockfd rs ++ use_et es)
use_et (other ∷ es) = something_else ∷ use_et es

-- The loop of `main` on what the calls of `epoll_wait` give; `none` is an error.
unfoldable pub main_loop : (listenfd : ℕ) → List (Option (List TriggerEvent)) → List TriggerAction
main_loop listenfd [] = []
main_loop listenfd (none ∷ bs) = wait_error ∷ close listenfd ∷ []
main_loop listenfd (some es ∷ bs) = use_et es ++ main_loop listenfd bs
