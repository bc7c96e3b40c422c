-- ===== src/EchoClient/Session.antt =====
-- The client and its child of the server.
use mathlib.Core.Path.{subst}
use mathlib.Core.List.{append_assoc, append-nil}
use my_linux_demo.Base.{
  before_nul, ℕ, ◌<◌, ◌≡◌, ◌≢◌, refl, sym, ap, ◌∙◌, ◌==◌, false, List, [], ◌∷◌, ◌++◌, arith, length,
  joined, All, length-append, Returns,
}
use my_linux_demo.EchoServer.{
  Input, interrupted, broken, ended, content, ChildCall, reply, print, read_error, close_fd, echo,
}
use my_linux_demo.EchoServer.Replies.{heard, ending, echoes, IsPiece, echo-replies}
use my_linux_demo.EchoClient.{ReadLine, ClientCall, cli_echo}
use my_linux_demo.EchoClient

-- A line that fits into a buffer: bytes that are neither NUL nor a newline, and a newline.
pub record IsLine (size : ℕ) (line : List ℕ) : Type 0 where
  pub front : List ℕ
  pub here : line ≡ front ++ b'\n' ∷ []
  pub plain : All (λ c. (c ≢ 0) × (c ≢ b'\n')) front
  pub fits : length line < size

-- What the documentation of `Readline` says: it reads one line, and leaves what is behind.
abbrev pub IsReadLine : (size : ℕ) → ReadLine → Type 0
IsReadLine size readline =
    (buf line left : List ℕ)
    → IsLine size line
    → readline buf (line ++ left) ≡ (length line, line, left)

-- What a child sends.
abbrev pub replied : List ChildCall → List ℕ
replied [] = []
replied (reply bytes ∷ calls) = bytes ++ replied calls
replied (print bytes ∷ calls) = replied calls
replied (read_error ∷ calls) = replied calls
replied (close_fd fd ∷ calls) = replied calls

-- Every line is sent, and then printed.
abbrev pub exchanges : List (List ℕ) → List ClientCall
exchanges [] = []
exchanges (line ∷ lines) = EchoClient.send line ∷ EchoClient.print line ∷ exchanges lines

before_nul-plain :
    (front : List ℕ)
    → All (λ c. (c ≢ 0) × (c ≢ b'\n')) front
    → before_nul (front ++ b'\n' ∷ []) ≡ front ++ b'\n' ∷ []
before_nul-plain [] h = refl
before_nul-plain (c ∷ front) h = ground (arith, h.0.0, before_nul-plain front h.1)

before_nul-line : (size : ℕ) (line : List ℕ) → IsLine size line → before_nul line ≡ line
before_nul-line size line l =
    subst (λ u. before_nul u ≡ u) (sym l.here) (before_nul-plain l.front l.plain)

cli_echo-exchanges :
    (size : ℕ) (readline : ReadLine) (buf : List ℕ) (typed : List (List ℕ))
    → IsReadLine size readline
    → All (IsLine size) typed
    → cli_echo readline buf (joined typed) typed ≡ exchanges typed
unfolding cli_echo
cli_echo-exchanges size readline buf [] r h = refl
cli_echo-exchanges size readline buf (line ∷ typed) r (l, h) =
    let some_byte : (length line == 0) ≡ false =
      ground (arith, ap (λ (u : List ℕ). length u) l.here, length-append l.front (b'\n' ∷ [])) in
    simp (r buf line (joined typed) l, some_byte, before_nul-line size line l)
      (ap (λ calls. EchoClient.send line ∷ EchoClient.print line ∷ calls)
        (cli_echo-exchanges size readline line typed r h))

replied-echoes :
    (pieces : List (List ℕ)) (calls : List ChildCall)
    → replied (echoes pieces ++ calls) ≡ joined pieces ++ replied calls
replied-echoes [] calls = refl
replied-echoes (p ∷ pieces) calls =
    ap (λ bytes. p ++ bytes) (replied-echoes pieces calls)
    ∙ sym (append_assoc p (joined pieces) (replied calls))

replied-ending : (rs : List Input) → replied (ending rs).0 ≡ []
replied-ending [] = refl
replied-ending (interrupted ∷ rs) = replied-ending rs
replied-ending (broken ∷ rs) = refl
replied-ending (ended ∷ rs) = refl
replied-ending (content bytes ∷ rs) = replied-ending rs

-- A client and its child of the server together, with Readline as documented: where the child
-- reads the lines that are typed at the client, in whatever pieces, each of which fits into its
-- buffer and holds a byte that is no lower-case letter, and the client gets all that the child
-- sends: the client sends and then prints exactly the lines that are typed, in order, and reports
-- no error; where no line holds a NUL and each fits into the buffers.
pub echo-exchanges :
    (size : ℕ) (readline : ReadLine) (recive_buf buf : List ℕ) (typed : List (List ℕ))
    (rs : List Input)
    → IsReadLine size readline
    → All (IsLine size) typed
    → All (IsPiece (length buf)) (heard rs)
    → joined (heard rs) ≡ joined typed
    → Returns
        (λ (calls, returned). cli_echo readline recive_buf (replied calls) typed ≡ exchanges typed)
        (echo buf rs)
echo-exchanges size readline recive_buf buf typed rs r lines pieces e =
    let all_of : replied (echoes (heard rs) ++ (ending rs).0) ≡ joined typed =
      replied-echoes (heard rs) (ending rs).0
      ∙ ap (λ bytes. joined (heard rs) ++ bytes) (replied-ending rs)
      ∙ append-nil (joined (heard rs))
      ∙ e in
    rw (echo-replies buf rs pieces, all_of)
      (cli_echo-exchanges size readline recive_buf typed r lines)
