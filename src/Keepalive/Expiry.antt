-- ===== src/Keepalive/Expiry.antt =====
-- What the server does when the alarm has gone off.
use mathlib.Core.List.{append_assoc, append-nil}
use my_linux_demo.Base.{
  ℕ, ◌<◌, ◌≡◌, refl, sym, ap, ◌∙◌, true, false, some, List, [], ◌∷◌, ◌++◌, map, length, Returns,
  Returns-bind, ◌>>=◌,
}
use my_linux_demo.Mem.Split.{Freed}
use my_linux_demo.TimerList.{tick}
use my_linux_demo.TimerList.Spec.{Cells, IsList, IsSorted}
use my_linux_demo.TimerList.Tick.{call_of}
use my_linux_demo.TimerList.Order.{Swept, expired, waiting, tick-expired}
use my_linux_demo.Keepalive.{
  Server, Action, delete_fd, close_fd, set_alarm, timeslot, global_epollfd, cb_func, run_calls,
  time_handler, on_timeout,
}

-- The system calls that close the connections of some timers.
unfoldable pub closing : (ℕ → ℕ) → Cells → List Action
closing f [] = []
closing f (c ∷ xs) =
    delete_fd global_epollfd (f c.1.user_data) ∷ close_fd (f c.1.user_data) ∷ closing f xs

run_calls-closing :
    (s : Server) (xs : Cells)
    → run_calls s (map call_of xs) ≡ record s { actions = s.actions ++ closing s.user_sockfd xs }
unfolding run_calls cb_func closing
run_calls-closing s [] =
    ap (λ (a : List Action). record s { actions = a }) (sym (append-nil s.actions))
run_calls-closing s (c ∷ xs) =
    run_calls-closing (cb_func s c.1.user_data) xs
    ∙ ap (λ (a : List Action). record s { actions = a })
        (append_assoc s.actions _ (closing s.user_sockfd xs))

-- The expired connections are closed, the others wait on, and the alarm is set again.
abbrev pub Closed : ℕ → Server → Cells → Server → Type 0
Closed cur s xs s' =
    IsList s'.timer_list (waiting cur xs)
    × Freed (expired cur xs) s'.timer_list.mem
    × (s'.actions
        ≡ (s.actions ++ closing s.user_sockfd (expired cur xs)) ++ set_alarm timeslot ∷ [])
    × (s'.timeout ≡ false)
    × (s'.stop_server ≡ s.stop_server)
    × (s'.user_timer ≡ s.user_timer)
    × (s'.user_sockfd ≡ s.user_sockfd)

-- The same before `timeout` is cleared.
abbrev Handled : ℕ → Server → Cells → Server → Type 0
Handled cur s xs s' =
    IsList s'.timer_list (waiting cur xs)
    × Freed (expired cur xs) s'.timer_list.mem
    × (s'.actions
        ≡ (s.actions ++ closing s.user_sockfd (expired cur xs)) ++ set_alarm timeslot ∷ [])
    × (s'.stop_server ≡ s.stop_server)
    × (s'.user_timer ≡ s.user_timer)
    × (s'.user_sockfd ≡ s.user_sockfd)

time_handler-Handled :
    (fuel cur : ℕ) (s : Server) (xs : Cells)
    → IsList s.timer_list xs
    → IsSorted xs
    → length xs < fuel
    → Returns (Handled cur s xs) (time_handler fuel cur s)
unfolding time_handler
time_handler-Handled fuel cur s xs is sorted f =
    Returns-bind (λ r. Swept s.timer_list cur xs r) (Handled cur s xs) (tick fuel cur s.timer_list)
      _ (tick-expired fuel cur s.timer_list xs is sorted f)
      λ r h. rw (h.3) (
        rw (run_calls-closing (record s { timer_list = r.0 }) (expired cur xs))
          (h.0, h.2, refl, refl, refl, refl))

pub on_timeout-due :
    (fuel cur : ℕ) (s : Server)
    → s.timeout ≡ true
    → on_timeout fuel cur s
      ≡ (time_handler fuel cur s >>= λ s'. some (record s' { timeout = false }))
unfolding on_timeout
on_timeout-due fuel cur s due = simp due

-- When the alarm has gone off, on a sorted, well-linked list of timers and with more fuel than
-- timers, the server closes exactly the connections whose timers have expired, in the order of
-- their times, deletes those timers and keeps the others, sets the alarm again and clears timeout.
pub on_timeout-Closed :
    (fuel cur : ℕ) (s : Server) (xs : Cells)
    → IsList s.timer_list xs
    → IsSorted xs
    → length xs < fuel
    → s.timeout ≡ true
    → Returns (Closed cur s xs) (on_timeout fuel cur s)
on_timeout-Closed fuel cur s xs is sorted f due = rw (on_timeout-due fuel cur s due) (
    Returns-bind (Handled cur s xs) (Closed cur s xs) (time_handler fuel cur s) _
      (time_handler-Handled fuel cur s xs is sorted f) λ s' h. (h.0, h.1, h.2, refl, h.3, h.4, h.5))
