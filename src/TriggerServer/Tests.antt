-- ===== src/TriggerServer/Tests.antt =====
-- Runs of the level and edge triggered servers.
use my_linux_demo.Base.{◌≡◌, refl, true, Option, none, some, List, [], ◌∷◌, ◌++◌}
use my_linux_demo.Socket.{would_block, broken, ended, content}
use my_linux_demo.TriggerServer.{
  TriggerEvent, arrived, readable, addfd, close, printed, event_target_once, read_later, wait_error,
  read_once, read_all, use_lt, use_et, main_loop,
}
use my_linux_demo.TriggerServer.Levels.{batches, as_levels, work, ending, main_loop-levels}

abbrev run : List (Option (List TriggerEvent))
run =
    some
      (arrived 7 ∷ readable 6 (content (1 ∷ 0 ∷ 2 ∷ []) ∷ content (3 ∷ []) ∷ would_block ∷ []) ∷ [])
    ∷ some (readable 7 (content (4 ∷ []) ∷ broken ∷ []) ∷ [])
    ∷ none
    ∷ []

-- The end of a connection: under edge triggering the descriptor is closed twice.
ended_et :
    use_et (readable 7 (ended ∷ broken ∷ []) ∷ []) ≡ event_target_once ∷ close 7 ∷ close 7 ∷ []
unfolding use_et read_all
ended_et = refl

ended_lt : use_lt (readable 7 (ended ∷ []) ∷ []) ≡ event_target_once ∷ close 7 ∷ []
unfolding use_lt read_once
ended_lt = refl

-- A NUL ends what is printed.
run_et :
    main_loop 3 run
    ≡ addfd 7 true
      ∷ event_target_once
      ∷ printed 3 (1 ∷ [])
      ∷ printed 1 (3 ∷ [])
      ∷ read_later
      ∷ event_target_once
      ∷ printed 1 (4 ∷ [])
      ∷ close 7
      ∷ wait_error
      ∷ close 3
      ∷ []
unfolding main_loop use_et read_all
run_et = refl

main_loop-levels_example :
    work (main_loop 3 run) ≡ work (use_lt (as_levels (batches run))) ++ work (ending 3 run)
unfolding batches
main_loop-levels_example = main_loop-levels 3 run (tt, (refl, (refl, tt)))
