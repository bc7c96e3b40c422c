-- ===== src/EchoServer/Tests.antt =====
-- Runs of the echo server, and its theorems at two clients.
use my_linux_demo.Base.{
  ◌≤◌, ◌*◌, ℕ, ◌≡◌, refl, none, some, List, [], ◌∷◌, arith, Returns, true, false, length, ◌⊎◌,
}
use my_linux_demo.EchoServer.{
  Input, interrupted, broken, ended, content, reply, print, read_error, capitalise, overwritten,
  echo, Attempt, accept_failed, forked, fork_failed, Parent, main_loop,
}
use my_linux_demo.EchoServer.Connections.{Served, main_loop-Served}
use my_linux_demo.EchoServer.Children.{
  Children, ends, signal, step, sig_chld, without, Reach, start, next, GetsOn, zombies_end,
}

-- MAXLINE is 4 here.
abbrev buf : List ℕ
buf = 0 ∷ 0 ∷ 0 ∷ 0 ∷ []

abbrev input : List Input
input =
    content (b'a' ∷ b'b' ∷ b'\n' ∷ [])
    ∷ interrupted
    ∷ content (b'1' ∷ b'c' ∷ [])
    ∷ broken
    ∷ content (b'x' ∷ [])
    ∷ []

-- Only the letters in front of the first other byte are printed in upper case.
echoed :
    echo buf input
    ≡ some (
      reply (b'a' ∷ b'b' ∷ b'\n' ∷ [])
          ∷ print (b'A' ∷ b'B' ∷ b'\n' ∷ [])
          ∷ reply (b'1' ∷ b'c' ∷ [])
          ∷ print (b'1' ∷ b'c' ∷ [])
          ∷ read_error
          ∷ [],
      true,
    )
unfolding echo capitalise overwritten
echoed = refl

-- A buffer full of lower-case letters is read behind its end.
full_of_letters : echo buf (content (b'a' ∷ b'b' ∷ b'c' ∷ b'd' ∷ []) ∷ ended ∷ []) ≡ none
unfolding echo capitalise overwritten
full_of_letters = refl

abbrev parent : Parent
parent = record { is_open = λ fd. false; children = [] }

abbrev attempts : List Attempt
attempts = forked 4 input ∷ accept_failed ∷ fork_failed 5 ∷ forked 6 (ended ∷ []) ∷ []

main_loop-Served_example : Returns (Served 3 parent attempts) (main_loop 3 buf parent attempts)
main_loop-Served_example =
    main_loop-Served 3 buf parent attempts
      (((omega arith, refl), ((omega arith, refl), tt)), (tt, (tt, (tt, tt))))

-- Two children end before `sig_chld` is called: the second signal is lost.
abbrev two_ended : Children
two_ended = record {
  zombies = 8 ∷ 7 ∷ [];
  pending = true;
  handling = false;
  exited = 2;
  reported = 0;
}

two_ended-Reach : Reach 0 two_ended
unfolding step
two_ended-Reach = next (ends 8) (next (ends 7) start refl) refl

both_waited :
    (step two_ended signal ≡ some (record two_ended { pending = false; handling = true }))
    × (sig_chld two_ended (8 ∷ 7 ∷ []) 1
        ≡ some (record two_ended { zombies = 8 ∷ []; reported = 1 }))
unfolding step sig_chld without
both_waited = (refl, refl)

zombies_end_example :
    (0 ≤ 4 * two_ended.exited)
    × ((length two_ended.zombies ≡ 0) × (two_ended.reported ≡ two_ended.exited) ⊎ GetsOn two_ended)
zombies_end_example = zombies_end 0 two_ended two_ended-Reach
