-- ===== src/DualServer/Tests.antt =====
-- Runs of the echo server for TCP and UDP.
use my_linux_demo.Base.{◌≡◌, refl, Option, none, some, List, [], ◌∷◌, map, arith}
use my_linux_demo.Socket.{would_block, broken, ended, content}
use my_linux_demo.DualServer.{
  EchoEvent, arrived, datagram, readable, in_buffer, watch, close, send, echo, on_event, on_batch,
  main_loop, answer_udp,
}
use my_linux_demo.DualServer.Echo.{
  sent_bytes, datagrams_to, written, datagrams_from, served, padded, main_loop-echoes,
}

-- Two TCP clients and a UDP client, and then an error.
abbrev batches : List (Option (List EchoEvent))
batches =
    some (
      arrived 7
      ∷ readable 7 (content (1 ∷ []) ∷ content (2 ∷ 3 ∷ []) ∷ would_block ∷ [])
      ∷ datagram 50 (9 ∷ [])
      ∷ [])
    ∷ some (
        readable 8 (content (4 ∷ []) ∷ would_block ∷ [])
        ∷ readable 7 (content (5 ∷ []) ∷ broken ∷ [])
        ∷ [])
    ∷ none
    ∷ []

-- The end of a connection: the loop reads on, and closes the descriptor again.
ended_twice : echo 7 (ended ∷ broken ∷ []) ≡ close 7 ∷ close 7 ∷ []
unfolding echo
ended_twice = refl

-- The answer to a datagram has zeros behind it.
short_datagram : in_buffer 3 (9 ∷ []) ≡ 9 ∷ 0 ∷ 0 ∷ []
unfolding in_buffer
short_datagram = refl

written_seven : written 7 (served batches) ≡ 1 ∷ 2 ∷ 3 ∷ 5 ∷ []
unfolding written served my_linux_demo.DualServer.Echo.stream
written_seven = refl

main_loop-echoes_example :
    (sent_bytes 7 (main_loop 3 batches) ≡ written 7 (served batches))
    × (datagrams_to 50 (main_loop 3 batches) ≡ map padded (datagrams_from 50 (served batches)))
unfolding served
main_loop-echoes_example = main_loop-echoes 3 7 50 batches (tt, (tt, (omega arith, (tt, (tt, tt)))))
