-- ===== src/SelectServer/Tests.antt =====
-- Runs of the server, and the theorems at a table of eight entries.
use my_linux_demo.Base.{
  ◌≡◌, refl, true, ◌||◌, none, some, [], ◌∷◌, arith, ◌==◌, if◌then◌else◌, Returns,
}
use my_linux_demo.SelectServer.{
  Select, Turn, eof, bytes, close_fd, write, place, vacate, accept, on_ready, scan, turn,
}
use my_linux_demo.SelectServer.Table.{IsValid}
use my_linux_demo.SelectServer.Bounds.{Turned, turn-Turned}

-- The clients 5 and 6, with the listening socket 3.
abbrev server : Select
server = record {
  client = some 5 ∷ some 6 ∷ none ∷ none ∷ none ∷ none ∷ none ∷ none ∷ [];
  limit = 2;
  maxfd = 6;
  allset = λ fd. (fd == 3) || ((fd == 5) || (fd == 6));
}

-- A new client 7, data from 5, and the end of 6.
abbrev busy : Turn
busy = record {
  rset = λ fd. (fd == 3) || ((fd == 5) || (fd == 6));
  nready = 3;
  connfd = 7;
  named = true;
  read = λ fd. if fd == 6 then eof else bytes (1 ∷ []);
}

busy_run :
    Returns
      (λ r.
        (r.0.client ≡ some 5 ∷ none ∷ some 7 ∷ none ∷ none ∷ none ∷ none ∷ none ∷ [])
        × (r.0.allset 6 ≡ true)
        × (r.1 ≡ write 5 (1 ∷ []) ∷ close_fd 6 ∷ []))
      (turn 3 server busy)
unfolding turn accept place scan on_ready vacate
busy_run = (refl, refl, refl)

server-IsValid : IsValid 8 server
server-IsValid = record {
  sized = refl;
  limit_le = omega arith;
  free_above = (refl, (refl, (refl, (refl, (refl, (refl, tt))))));
  once = λ fd. ground arith;
  watched = (refl, (refl, tt));
  bounded = λ fd h. (ground arith, ground arith);
}

turn-Turned_example : Returns (Turned 8 server) (turn 3 server busy)
turn-Turned_example = turn-Turned 8 3 server busy server-IsValid λ new. (omega arith, refl)

-- A descriptor for which `allset` has no bit.
too_large : turn 3 server (record busy { connfd = 8 }) ≡ none
unfolding turn accept place
too_large = refl
