-- ===== src/SignalServer/Tests.antt =====
-- Runs of the server that gets its signals through a pipe.
use my_linux_demo.Base.{◌≡◌, refl, false, some, List, [], ◌∷◌, ◌++◌, map}
use my_linux_demo.SignalServer.{
  sigint, sigterm, arrived, signalled, Waited, failed, interrupted, batch, watch, close, Fds,
  on_signal, on_signals, on_event, on_batch, closing, main_loop,
}
use my_linux_demo.SignalServer.Stopping.{stops, all_clients, main_loop-stops}

abbrev fds : Fds
fds = record { listenfd = 3; pipe_out = 5; pipe_in = 6 }

-- A new client, and SIGCHLD and SIGHUP.
abbrev quiet : List Waited
quiet = batch (arrived 7 ∷ signalled (17 ∷ 1 ∷ []) ∷ []) ∷ interrupted ∷ []

-- SIGTERM, in front of a new client.
abbrev ends : Waited
ends = batch (signalled (1 ∷ sigterm ∷ []) ∷ arrived 8 ∷ [])

quiet_then_ends :
    main_loop fds false (quiet ++ ends ∷ [])
    ≡ some (watch 7 ∷ watch 8 ∷ close 3 ∷ close 5 ∷ close 6 ∷ [])
unfolding main_loop on_batch on_event on_signals on_signal
quiet_then_ends = refl

main_loop-stops_example :
    main_loop fds false (quiet ++ ends ∷ failed ∷ [])
    ≡ some (map watch (all_clients (quiet ++ ends ∷ [])) ++ closing fds)
unfolding my_linux_demo.SignalServer.Stopping.signals_of
main_loop-stops_example = main_loop-stops fds quiet (failed ∷ []) ends (refl, (refl, tt)) refl
