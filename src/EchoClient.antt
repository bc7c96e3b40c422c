-- ===== src/EchoClient.antt =====
-- The echo client of unp/my_echo_cli.c: `cli_echo`. A string is the bytes in front of its NUL.
pub mod Session
pub mod Tests
use my_linux_demo.Base.{before_nul, ℕ, List, [], ◌∷◌, ◌++◌, ◌==◌, if◌then◌else◌}

-- `Readline` of the library of "unp.h": from what `recive_buf` holds and the bytes that are still to
-- come from the socket, its result, what `recive_buf` holds then, and the bytes behind.
abbrev pub ReadLine : Type 0
ReadLine = (recive_buf socket : List ℕ) → ℕ × List ℕ × List ℕ

-- The calls of the client: `writen` to the socket, the message of a failed `Readline`, `fputs`.
pub data ClientCall : Type 0 where
  send print : List ℕ → ClientCall
  read_error : ClientCall

-- `cli_echo` with the lines that `Fgets` gives.
unfoldable pub cli_echo :
    ReadLine → (recive_buf socket : List ℕ) → (typed : List (List ℕ)) → List ClientCall
cli_echo readline recive_buf socket [] = []
cli_echo readline recive_buf socket (send_buf ∷ typed) =
    let (n, held, left) = readline recive_buf socket in
    let rest = print (before_nul held) ∷ cli_echo readline held left typed in
    send (before_nul send_buf) ∷ (if n == 0 then read_error ∷ rest else rest)
