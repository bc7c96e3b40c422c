-- ===== src/Keepalive/Tests.antt =====
-- Runs of the server, and the theorems at a server with two clients.
use my_linux_demo.Base.{
  ◌≡◌, refl, ◌==◌, ◌||◌, if◌then◌else◌, ltb, ℕ, Option, List, true, false, none, some, [], ◌∷◌,
  arith, Returns,
}
use my_linux_demo.Mem.{Mem, node, update}
use my_linux_demo.TimerList.{
  Timer, del_timer, del_head, del_tail, del_inner, tick, tick_loop, drop_head, add_timer_from,
  add_loop, link_last, link_between, adjust_timer, adjust_head, adjust_move,
}
use my_linux_demo.TimerList.Spec.{Cells, IsList}
use my_linux_demo.Keepalive.{
  Server, ended, delivered, sig_handler, delete_fd, close_fd, set_alarm, timer_for, sigalrm,
  on_signals, on_signal, on_event, on_batch, on_timeout, time_handler, run_calls, cb_func, on_read,
  refresh, set_expire, accept_client, drop_client, main_loop, Waited, epoll_fail, batch, readable,
  arrived, signalled,
}
use my_linux_demo.Keepalive.Signals.{received, flagged, on_signals-flagged}
use my_linux_demo.Keepalive.Connections.{
  Connected, accept_client-Connected, Renewed, refresh-Renewed, Dropped, drop_client-Dropped,
}
use my_linux_demo.Keepalive.Expiry.{Closed, on_timeout-Closed}
use my_linux_demo.Keepalive.Invariant.{IsHealthy, Healthy}
use my_linux_demo.Keepalive.Serving.{Called}
use my_linux_demo.Keepalive.Deaf.{calls_of_run, main_loop-Called}
use my_linux_demo.Keepalive.Loop.{IsRun, main_loop-Healthy}
use my_linux_demo.Keepalive.Steps.{Kept, on_event-Healthy, on_timeout-Healthy}

-- The clients 6 and 7, since the times 100 and 102.
abbrev clients : Cells
clients = (1, timer_for 6 100) ∷ (2, timer_for 7 102) ∷ []

abbrev heap : Mem Timer
heap =
    update (update (λ _. none) 1 (some (node (timer_for 6 100) 0 2))) 2
      (some (node (timer_for 7 102) 1 0))

abbrev server : Server
server = record {
  epollfd = 8;
  timer_list = record { mem = heap; head = 1; tail = 2 };
  user_sockfd = λ fd. fd;
  user_timer = λ fd. if fd == 6 then 1 else if fd == 7 then 2 else 0;
  timeout = true;
  stop_server = false;
  actions = [];
}

clients-IsList : IsList server.timer_list clients
clients-IsList = record {
  links = (ground arith, refl, (ground arith, refl, tt));
  distinct = (refl, (refl, tt));
  head_is = refl;
  tail_is = refl;
}

-- A batch with data from the client 6 and an alarm, at the time 116: only the client 7 is idle
-- for too long when its time comes, at 117.
loop_run :
    Returns
      (λ s. s.actions ≡ set_alarm 5 ∷ delete_fd 0 7 ∷ close_fd 7 ∷ set_alarm 5 ∷ [])
      (main_loop 5
        (record server { timeout = false })
        (batch (readable 6 arrived 110 ∷ signalled (sigalrm ∷ []) ∷ []) 116
          ∷ batch (signalled (sigalrm ∷ []) ∷ []) 121
          ∷ []))
unfolding main_loop on_batch on_event on_read refresh set_expire adjust_timer adjust_head
    adjust_move add_timer_from add_loop link_last link_between on_signals on_signal on_timeout
    time_handler tick tick_loop drop_head run_calls cb_func
loop_run = refl

two_signals :
    on_signals server (1 ∷ sigalrm ∷ [])
    ≡ flagged server
        (true || received sigalrm (1 ∷ sigalrm ∷ []))
        (false || received 15 (1 ∷ sigalrm ∷ []))
two_signals = on_signals-flagged server (1 ∷ sigalrm ∷ [])

new_client : Returns (Connected server 8 3 105 clients) (accept_client 4 server 8 3 105)
new_client =
    accept_client-Connected 4 server 8 3 105 clients clients-IsList ((omega arith, tt), (tt, tt))
      (ground arith) refl (omega arith) (omega arith)

kept_alive :
    Returns
      (Renewed server 110 [] (1, timer_for 6 100) ((2, timer_for 7 102) ∷ []))
      (refresh 4 server 6 110)
kept_alive =
    refresh-Renewed 4 server 6 110 [] 1 (timer_for 6 100) ((2, timer_for 7 102) ∷ []) clients-IsList
      refl (tt, tt) tt (omega arith)

dropped : Returns (Dropped server 6 [] ((2, timer_for 7 102) ∷ [])) (drop_client server 6)
dropped =
    drop_client-Dropped server 6 [] 1 (timer_for 6 100) ((2, timer_for 7 102) ∷ []) clients-IsList
      refl

alarm_closes : Returns (Closed 116 server clients) (on_timeout 4 116 server)
alarm_closes =
    on_timeout-Closed 4 116 server clients clients-IsList ((omega arith, tt), (tt, tt))
      (omega arith) refl

server-IsHealthy : IsHealthy 105 clients server
server-IsHealthy = record {
  listed = clients-IsList;
  sorted = ((omega arith, tt), (tt, tt));
  near = (omega arith, (omega arith, tt));
  owned = ((refl, refl, omega arith), ((refl, refl, omega arith), tt));
}

readable_step : Returns (Kept 110 2) (on_event 4 server (readable 6 arrived 110))
readable_step =
    on_event-Healthy 4 105 server clients (readable 6 arrived 110) server-IsHealthy (omega arith) (
      omega arith,
      record {
        front = [];
        address = 1;
        timer = timer_for 6 100;
        rear = (2, timer_for 7 102) ∷ [];
        here = refl;
        is_user = refl;
      },
    )

timeout_step : Returns (Healthy 105 2) (on_timeout 4 116 server)
timeout_step = on_timeout-Healthy 4 105 116 server clients server-IsHealthy (omega arith)

-- An alarm, and data from the client 6.
abbrev waits : List Waited
waits = batch (signalled (sigalrm ∷ []) ∷ readable 6 arrived 110 ∷ []) 116 ∷ epoll_fail ∷ []

waits-IsRun : IsRun 5 105 server waits
unfolding on_event on_signals on_signal on_read refresh set_expire adjust_timer adjust_head
    adjust_move add_timer_from add_loop link_last link_between on_batch on_timeout time_handler tick
    tick_loop drop_head run_calls cb_func
waits-IsRun = (
  (
    (clients, clients-IsList, tt),
    (
      (
        clients,
        clients-IsList,
        (
          omega arith,
          record {
            front = [];
            address = 1;
            timer = timer_for 6 100;
            rear = (2, timer_for 7 102) ∷ [];
            here = refl;
            is_user = refl;
          },
        ),
      ),
      tt,
    ),
  ),
  tt,
)

main_loop-Healthy_example : Returns (Healthy 116 2) (main_loop 5 server waits)
main_loop-Healthy_example =
    main_loop-Healthy 5 105 2 server waits (clients, server-IsHealthy, omega arith) (omega arith)
      ((omega arith, (omega arith, omega arith)), tt) waits-IsRun

-- A process that has nothing mapped below the address 4096.
abbrev memory : ℕ → Option ℕ
memory address = if ltb address 4096 then none else some 14

-- SIGALRM is raised and does not arrive, the client 6 ends its connection; the time is far behind
-- that of the client 7.
abbrev late : List Waited
late = batch (signalled (delivered memory (sigalrm ∷ [])) ∷ readable 6 ended 110 ∷ []) 200 ∷ []

abbrev waiting_server : Server
waiting_server = record server { timeout = false }

late-IsRun : IsRun 5 105 waiting_server late
unfolding on_event on_signals on_signal on_read drop_client cb_func del_timer del_inner del_head
    del_tail on_batch on_timeout delivered sig_handler
late-IsRun = (
  (
    (clients, clients-IsList, tt),
    (
      (
        clients,
        clients-IsList,
        (
          omega arith,
          record {
            front = [];
            address = 1;
            timer = timer_for 6 100;
            rear = (2, timer_for 7 102) ∷ [];
            here = refl;
            is_user = refl;
          },
        ),
      ),
      tt,
    ),
  ),
  tt,
)

waiting_server-IsHealthy : IsHealthy 105 clients waiting_server
waiting_server-IsHealthy = record {
  listed = clients-IsList;
  sorted = ((omega arith, tt), (tt, tt));
  near = (omega arith, (omega arith, tt));
  owned = server-IsHealthy.owned;
}

main_loop-Called_example :
    Returns (Called waiting_server (calls_of_run 8 late)) (main_loop 5 waiting_server late)
main_loop-Called_example =
    main_loop-Called memory (λ address l. ground (arith, l)) 5 105 2 waiting_server late
      (clients, waiting_server-IsHealthy, omega arith) (omega arith)
      ((omega arith, (omega arith, omega arith)), tt) late-IsRun
      (((sigalrm ∷ [], (omega arith, tt), refl), (tt, tt)), tt) refl refl
