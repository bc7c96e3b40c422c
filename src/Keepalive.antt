-- ===== src/Keepalive.antt =====
-- The server of unp/high_performance/alarm_keeplive.cpp, which is to close idle connections:
-- `cb_func`, `time_handler`, `sig_handler` and the loop of `main`, over the timer list. What the
-- system calls give is an argument: the events of a batch, the bytes of the signal pipe, the time.
pub mod Signals
pub mod Connections
pub mod Expiry
pub mod Invariant
pub mod Steps
pub mod Loop
pub mod Serving
pub mod Deaf
pub mod Tests
use my_linux_demo.Base.{
  ℕ, ◌+◌, ◌*◌, Bool, true, false, Option, none, some, List, [], ◌∷◌, ◌++◌, ◌>>=◌, ◌==◌, leb,
  if◌then◌else◌,
}
use my_linux_demo.Mem.{Ptr, null, Mem, node, update, load}
use my_linux_demo.TimerList.{
  Timer, TimeList, with_mem, Call, add_timer, adjust_timer, del_timer, tick,
}

-- TIMESLOT
abbrev pub timeslot : ℕ
timeslot = 5

-- FD_LIMIT, the number of entries of `users`
abbrev pub fd_limit : ℕ
fd_limit = 65535

-- `epollfd` at the top of the file, which keeps its value: `main` has one of its own.
abbrev pub global_epollfd : ℕ
global_epollfd = 0

-- The signals that the server registers, by their numbers on Linux.
abbrev pub sigalrm : ℕ
sigalrm = 14

abbrev pub sigterm : ℕ
sigterm = 15

-- What stands for the address of `cb_func`.
abbrev pub callback : ℕ
callback = 1

-- `sig_handler`: `send` takes its byte from the address `(char *)msg`, the number of the signal, and
-- fails with EFAULT where nothing is mapped; `memory` is what the process has mapped.
unfoldable pub sig_handler : (memory : ℕ → Option ℕ) → (sig : ℕ) → Option ℕ
sig_handler memory sig = memory sig

abbrev pub sent_before : Option ℕ → List ℕ → List ℕ
sent_before none bytes = bytes
sent_before (some byte) bytes = byte ∷ bytes

-- The bytes that signals bring into the pipe.
unfoldable pub delivered : (memory : ℕ → Option ℕ) → List ℕ → List ℕ
delivered memory [] = []
delivered memory (sig ∷ sigs) = sent_before (sig_handler memory sig) (delivered memory sigs)

-- The system calls that the server makes, in order.
pub data Action : Type 0 where
  add_fd delete_fd : (epollfd fd : ℕ) → Action
  close_fd set_alarm : ℕ → Action

-- `epollfd` is that of `main`. `users[fd].sockfd` and `users[fd].timer` are functions of `fd`, used
-- below FD_LIMIT only; a `client_data *` is its index.
pub record Server : Type 0 where
  pub epollfd : ℕ
  pub timer_list : TimeList
  pub user_sockfd : ℕ → ℕ
  pub user_timer : ℕ → Ptr
  pub timeout : Bool
  pub stop_server : Bool
  pub actions : List Action

abbrev pub set_user : (ℕ → ℕ) → ℕ → ℕ → ℕ → ℕ
set_user f fd x j = if j == fd then x else f j

unfoldable pub cb_func : Server → (user_data : ℕ) → Server
cb_func s user = record s {
  actions =
      s.actions
      ++ delete_fd global_epollfd (s.user_sockfd user) ∷ close_fd (s.user_sockfd user) ∷ [];
}

-- The calls that a tick makes.
unfoldable pub run_calls : Server → List Call → Server
run_calls s [] = s
run_calls s ((_, user) ∷ calls) = run_calls (cb_func s user) calls

unfoldable pub time_handler : (fuel cur : ℕ) → Server → Option Server
time_handler fuel cur s = do
  (l, calls) ← tick fuel cur s.timer_list
  let s' = run_calls (record s { timer_list = l }) calls
  some (record s' { actions = s'.actions ++ set_alarm timeslot ∷ [] })

abbrev pub timer_for : (connfd cur : ℕ) → Timer
timer_for connfd cur = record {
  expire = cur + 3 * timeslot;
  cb_func = callback;
  user_data = connfd;
}

-- A new client, whose timer is allocated at `timer`; from FD_LIMIT on `users` has no entry.
unfoldable pub accept_client : (fuel : ℕ) → Server → (connfd timer cur : ℕ) → Option Server
accept_client fuel s connfd timer cur = if leb fd_limit connfd then none else do
  let m = update s.timer_list.mem timer (some (node (timer_for connfd cur) null null))
  l ← add_timer fuel (with_mem s.timer_list m) timer
  some (record s {
    timer_list = l;
    user_sockfd = set_user s.user_sockfd connfd connfd;
    user_timer = set_user s.user_timer connfd timer;
    actions = s.actions ++ add_fd s.epollfd connfd ∷ [];
  })

-- The switch on one byte of the pipe, and the loop over the bytes.
unfoldable pub on_signal : Server → ℕ → Server
on_signal s sig =
    if sig == sigalrm
    then record s { timeout = true }
    else if sig == sigterm
    then record s { stop_server = true }
    else s

unfoldable pub on_signals : Server → List ℕ → Server
on_signals s [] = s
on_signals s (sig ∷ sigs) = on_signals (on_signal s sig) sigs

-- A failed `recv` or the end of the connection.
unfoldable pub drop_client : Server → (sockfd : ℕ) → Option Server
drop_client s sockfd = do
  let timer = s.user_timer sockfd
  let s' = cb_func s sockfd
  if timer == null
      then some s'
      else do l ← del_timer s'.timer_list timer; some (record s' { timer_list = l })

unfoldable pub set_expire : Mem Timer → (timer expire : ℕ) → Option (Mem Timer)
set_expire m timer expire = do
  n ← load m timer
  let p = n.payload
  let p' = record p { expire = expire }
  some (update m timer (some (record n { payload = p' })))

-- Data has come from a client.
unfoldable pub refresh : (fuel : ℕ) → Server → (sockfd cur : ℕ) → Option Server
refresh fuel s sockfd cur = if s.user_timer sockfd == null then some s else do
  m ← set_expire s.timer_list.mem (s.user_timer sockfd) (cur + 3 * timeslot)
  l ← adjust_timer fuel (with_mem s.timer_list m) (s.user_timer sockfd)
  some (record s { timer_list = l })

-- What `recv` says of a client: EAGAIN or EWOULDBLOCK, another error, the end, or some bytes.
pub data Read : Type 0 where
  again failed ended arrived : Read

-- An event of a batch, with what the system calls give that its branch makes: `accept`, `new` and
-- `time`; the bytes of the signal pipe, none if `recv` fails or finds nothing; `recv` and `time`.
pub data Event : Type 0 where
  connect : (connfd timer cur : ℕ) → Event
  signalled : List ℕ → Event
  readable : (sockfd : ℕ) → Read → (cur : ℕ) → Event
  other : Event

-- A read on a client; the Boolean says whether the loop over the batch goes on.
unfoldable pub on_read :
    (fuel : ℕ) → Server → (sockfd : ℕ) → Read → (cur : ℕ) → Option (Server × Bool)
on_read fuel s sockfd again cur = some (s, false)
on_read fuel s sockfd failed cur = do s' ← drop_client s sockfd; some (s', true)
on_read fuel s sockfd ended cur = do s' ← drop_client s sockfd; some (s', true)
on_read fuel s sockfd arrived cur = do s' ← refresh fuel s sockfd cur; some (s', true)

-- One event; data of a descriptor from FD_LIMIT on are read into an entry behind `users`.
unfoldable pub on_event : (fuel : ℕ) → Server → Event → Option (Server × Bool)
on_event fuel s (connect connfd timer cur) = do
  s' ← accept_client fuel s connfd timer cur
  some (s', true)
on_event fuel s (signalled sigs) = some (on_signals s sigs, true)
on_event fuel s (readable sockfd r cur) =
    if leb fd_limit sockfd then none else on_read fuel s sockfd r cur
on_event fuel s other = some (s, true)

unfoldable pub on_batch : (fuel : ℕ) → Server → List Event → Option Server
on_batch fuel s [] = some s
on_batch fuel s (e ∷ es) = do
  (s', goes_on) ← on_event fuel s e
  let rest = on_batch fuel s' es
  if goes_on then rest else some s'

-- `if(timeout)`, at the time `cur`.
unfoldable pub on_timeout : (fuel cur : ℕ) → Server → Option Server
on_timeout fuel cur s =
    if s.timeout
    then (do s' ← time_handler fuel cur s; some (record s' { timeout = false }))
    else some s

-- What `epoll_wait` gives: an error, or a batch, which is empty after EINTR; and the time after it.
pub data Waited : Type 0 where
  epoll_fail : Waited
  batch : List Event → (cur : ℕ) → Waited

-- The `while` loop.
unfoldable pub main_loop : (fuel : ℕ) → Server → List Waited → Option Server
main_loop fuel s [] = some s
main_loop fuel s (epoll_fail ∷ ws) = some s
main_loop fuel s (batch es cur ∷ ws) =
    if s.stop_server
    then some s
    else do s' ← on_batch fuel s es; s'' ← on_timeout fuel cur s'; main_loop fuel s'' ws
