-- ===== src/EchoClient/Tests.antt =====
-- A client that types two lines, which the server reads in three pieces.
use my_linux_demo.Base.{
  ℕ, ◌≡◌, ◌≢◌, refl, List, [], ◌∷◌, ◌++◌, ◌==◌, if◌then◌else◌, arith, length, All, Returns, false,
}
use my_linux_demo.EchoServer.{Input, content, interrupted, ended, echo}
use my_linux_demo.EchoClient.{ReadLine, send, print, read_error, cli_echo}
use my_linux_demo.EchoClient.Session.{IsReadLine, replied, exchanges, echo-exchanges}

-- A `Readline` that knows no limit.
abbrev line_of : List ℕ → List ℕ × List ℕ
line_of [] = ([], [])
line_of (c ∷ cs) =
    let (line, left) = line_of cs in if c == b'\n' then (c ∷ [], cs) else (c ∷ line, left)

abbrev read_line : ReadLine
read_line recive_buf socket = let (line, left) = line_of socket in (length line, line, left)

line_of-plain :
    (front left : List ℕ)
    → All (λ c. (c ≢ 0) × (c ≢ b'\n')) front
    → line_of ((front ++ b'\n' ∷ []) ++ left) ≡ (front ++ b'\n' ∷ [], left)
line_of-plain [] left h = refl
line_of-plain (c ∷ front) left h =
    let newline : (c == b'\n') ≡ false = ground (arith, h.0.1) in
    rw (newline, line_of-plain front left h.1) refl

read_line-IsReadLine : IsReadLine 80 read_line
read_line-IsReadLine recive_buf line left l = rw (l.here, line_of-plain l.front left l.plain) refl

abbrev typed : List (List ℕ)
typed = (b'h' ∷ b'i' ∷ b'\n' ∷ []) ∷ (b'1' ∷ b'\n' ∷ []) ∷ []

abbrev input : List Input
input =
    content (b'h' ∷ b'i' ∷ b'\n' ∷ [])
    ∷ interrupted
    ∷ content (b'1' ∷ [])
    ∷ content (b'\n' ∷ [])
    ∷ ended
    ∷ []

-- When the server has closed the connection, recive_buf is printed all the same.
printed_anyway :
    cli_echo read_line [] (b'1' ∷ b'\n' ∷ []) typed
    ≡ send (b'h' ∷ b'i' ∷ b'\n' ∷ [])
      ∷ print (b'1' ∷ b'\n' ∷ [])
      ∷ send (b'1' ∷ b'\n' ∷ [])
      ∷ read_error
      ∷ print []
      ∷ []
unfolding cli_echo
printed_anyway = refl

echo-exchanges_example :
    Returns
      (λ (calls, returned). cli_echo read_line [] (replied calls) typed ≡ exchanges typed)
      (echo (0 ∷ 0 ∷ 0 ∷ 0 ∷ []) input)
echo-exchanges_example =
    echo-exchanges 80 read_line [] (0 ∷ 0 ∷ 0 ∷ 0 ∷ []) typed input read_line-IsReadLine
      (
        record {
          front = b'h' ∷ b'i' ∷ [];
          here = refl;
          plain = (
            ((λ e. omega arith), (λ e. omega arith)),
            (((λ e. omega arith), (λ e. omega arith)), tt),
          );
          fits = omega arith;
        },
        (
          record {
            front = b'1' ∷ [];
            here = refl;
            plain = (((λ e. omega arith), (λ e. omega arith)), tt);
            fits = omega arith;
          },
          tt,
        ),
      )
      ((omega arith, refl), ((omega arith, refl), ((omega arith, refl), tt))) refl
