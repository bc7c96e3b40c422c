-- ===== src/SelectClient.antt =====
-- `str_cli` of unp/selectclient_test.c, the client that waits for its input and its socket at once.
-- What `select` and `read` give stands in the turns of its loop.
pub mod Copying
pub mod Tests
use my_linux_demo.Base.{
  ℕ, Bool, true, false, Option, none, some, List, [], ◌∷◌, ◌++◌, if◌then◌else◌,
}
use my_linux_demo.SelectServer.{ReadResult, eof, failed, bytes}

-- What is ready, with the result of `read` on it: the socket, and the input, which `select` is not
-- asked about once it has ended.
pub record Ready : Type 0 where
  pub socket : Option ReadResult
  pub input : Option ReadResult

-- The calls of `write` to standard output and to the socket, with a negative length they fail, and
-- `shutdown`.
pub data ClientCall : Type 0 where
  print send : List ℕ → ClientCall
  print_failed send_failed shutdown_write : ClientCall

-- How `str_cli` ends: it returns, or it calls `err_quit`.
pub data Outcome : Type 0 where
  returned quit : Outcome

-- The socket is ready.
unfoldable pub on_socket : (stdineof : Bool) → Option ReadResult → List ClientCall × Option Outcome
on_socket stdineof none = ([], none)
on_socket stdineof (some eof) = ([], some (if stdineof then returned else quit))
on_socket stdineof (some failed) = (print_failed ∷ [], none)
on_socket stdineof (some (bytes buf)) = (print buf ∷ [], none)

-- The input is ready, with `stdineof` after it.
unfoldable pub on_input : (stdineof : Bool) → Option ReadResult → List ClientCall × Bool
on_input true r = ([], true)
on_input false none = ([], false)
on_input false (some eof) = (shutdown_write ∷ [], true)
on_input false (some failed) = (send_failed ∷ [], false)
on_input false (some (bytes buf)) = (send buf ∷ [], false)

-- Calls in front of those that the rest of the loop makes.
abbrev pub preceded :
    List ClientCall → List ClientCall × Option Outcome → List ClientCall × Option Outcome
preceded calls (rest, end) = (calls ++ rest, end)

-- The loop; it has not ended when there is no outcome.
unfoldable pub str_cli : (stdineof : Bool) → List Ready → List ClientCall × Option Outcome
str_cli stdineof [] = ([], none)
str_cli stdineof (t ∷ ts) =
    let (printed, end) = on_socket stdineof t.socket in
    let (sent, stdineof') = on_input stdineof t.input in
    let rest = preceded sent (str_cli stdineof' ts) in
    preceded printed (elim end [ some outcome ↦ ([], some outcome) | none ↦ rest ])
