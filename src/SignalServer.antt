-- ===== src/SignalServer.antt =====
-- The server of unp/high_performance/epoll_sig.cpp, which gets its signals through a pipe: the loop
-- around `epoll_wait`. What the system calls give stands in the events.
pub mod Stopping
pub mod Tests
use my_linux_demo.Base.{
  ℕ, Bool, true, false, ◌||◌, Option, none, some, List, [], ◌∷◌, ◌++◌, ◌>>=◌, ◌==◌, if◌then◌else◌,
}

-- The signals that end the server, by their numbers on Linux.
abbrev pub sigint : ℕ
sigint = 2

abbrev pub sigterm : ℕ
sigterm = 15

-- An event: a new client, the bytes that `recv` gives on the pipe, its failure or end, or something
-- else.
pub data SignalEvent : Type 0 where
  arrived : (connfd : ℕ) → SignalEvent
  signalled : (signals : List ℕ) → SignalEvent
  no_signal other : SignalEvent

-- What `epoll_wait` gives: an error, EINTR, or a batch of events.
pub data Waited : Type 0 where
  failed interrupted : Waited
  batch : List SignalEvent → Waited

-- The system calls that the server makes, in order.
pub data SignalAction : Type 0 where
  watch close : (fd : ℕ) → SignalAction

-- `listenfd`, `pipefd[0]` and `pipefd[1]`
pub record Fds : Type 0 where
  pub listenfd : ℕ
  pub pipe_out : ℕ
  pub pipe_in : ℕ

-- The `switch` on a signal, with `stop_server`.
unfoldable pub on_signal : (stop_server : Bool) → ℕ → Bool
on_signal stop sig = if sig == sigterm || sig == sigint then true else stop

unfoldable pub on_signals : (stop_server : Bool) → List ℕ → Bool
on_signals stop [] = stop
on_signals stop (sig ∷ sigs) = on_signals (on_signal stop sig) sigs

unfoldable pub on_event : (stop_server : Bool) → SignalEvent → Bool × List SignalAction
on_event stop (arrived connfd) = (stop, watch connfd ∷ [])
on_event stop (signalled sigs) = (on_signals stop sigs, [])
on_event stop no_signal = (stop, [])
on_event stop other = (stop, [])

unfoldable pub on_batch : (stop_server : Bool) → List SignalEvent → Bool × List SignalAction
on_batch stop [] = (stop, [])
on_batch stop (e ∷ es) =
    let (stop', calls) = on_event stop e in
    let (stop'', rest) = on_batch stop' es in (stop'', calls ++ rest)

abbrev pub closing : Fds → List SignalAction
closing fds = close fds.listenfd ∷ close fds.pipe_out ∷ close fds.pipe_in ∷ []

-- Calls in front of those that the rest of a run makes.
abbrev pub with_calls : List SignalAction → Option (List SignalAction) → Option (List SignalAction)
with_calls calls run = do rest ← run; some (calls ++ rest)

-- The loop of `main` and what follows it; `none` where the server still waits in the end.
unfoldable pub main_loop : Fds → (stop_server : Bool) → List Waited → Option (List SignalAction)
main_loop fds true ws = some (closing fds)
main_loop fds false [] = none
main_loop fds false (failed ∷ ws) = some (closing fds)
main_loop fds false (interrupted ∷ ws) = main_loop fds false ws
main_loop fds false (batch es ∷ ws) =
    let (stop, calls) = on_batch false es in with_calls calls (main_loop fds stop ws)
