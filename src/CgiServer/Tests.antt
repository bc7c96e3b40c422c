-- ===== src/CgiServer/Tests.antt =====
-- Runs of the CGI server, and the theorem at a file name in three pieces.
use my_linux_demo.Base.{◌≡◌, refl, true, false, some, List, [], ◌∷◌, arith}
use my_linux_demo.Http.{cr, lf}
use my_linux_demo.Http.CString.{Bytes, c_string}
use my_linux_demo.Http.Server.{store, zeroed}
use my_linux_demo.CgiServer.{
  init, Recv, again, got, failed, closed, in_child, in_parent, removefd, execl, search, answer,
  process,
}
use my_linux_demo.CgiServer.Search.{end_at}
use my_linux_demo.CgiServer.Pieces.{IsName, pieces-answer}

-- "/a"
abbrev name : Bytes
name = b'/' ∷ b'a' ∷ []

name-IsName : IsName name
unfolding end_at
name-IsName = record { no_nul = ground arith; no_crlf = refl }

abbrev pieces : List Recv
pieces = got (b'/' ∷ []) ∷ again ∷ got (b'a' ∷ cr ∷ []) ∷ got (lf ∷ b'x' ∷ []) ∷ []

pieces_run : process (λ file. true) in_child init pieces ≡ some (execl name ∷ [])
unfolding process init search answer store zeroed c_string
pieces_run = refl

pieces-answer_example :
    process (λ file. false) in_parent init pieces ≡ some (answer (λ file. false) in_parent name)
pieces-answer_example =
    pieces-answer (λ file. false) in_parent name (b'x' ∷ []) pieces name-IsName (omega arith)
      (tt, (tt, (tt, (tt, tt)))) refl

-- After an error the loop reads on, and removes the descriptor again.
failing_run :
    process (λ file. true) in_child init (failed ∷ failed ∷ closed ∷ [])
    ≡ some (removefd ∷ removefd ∷ removefd ∷ [])
unfolding process
failing_run = refl
