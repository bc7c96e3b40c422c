-- ===== src/Http/Server.antt =====
-- The loop of `main` that receives a request and answers it.
use mathlib.Core.Path.{subst}
use my_linux_demo.Base.{
  length-append, ℕ, suc, ◌+◌, ◌-◌, ◌<◌, ◌≤◌, ◌≡◌, ◌≢◌, refl, sym, ap, ◌∙◌, Option, none, some, List,
  [], ◌∷◌, arith, ltb, if◌then◌else◌, ◌>>=◌, length, All, Returns, Returns-then, Returns-result,
  Returns-bind, Option-cases, inl, inr,
}
use my_linux_demo.Http.{
  cr, lf, Buffer, put, poke, nul, check_state_requestline, HttpCode, no_request, get_request,
  Output, method_is_get, url_is,
}
use my_linux_demo.Http.CString.{Bytes}
use my_linux_demo.Http.Content.{Session, parse_content}
use my_linux_demo.Http.Scan.{Holds}
use my_linux_demo.Http.RequestLine.{RequestLine, line_of, IsGet}
use my_linux_demo.Http.Lines.{Clean, crlf}
use my_linux_demo.Http.Whole.{IsHeader, render, report, session, parse_content-Complete, Complete}

-- What `recv` gives: -1, or the bytes that have come; no bytes mean that the peer has closed.
pub data Received : Type 0 where
  failed : Received
  arrived : Bytes → Received

-- How the loop ends: on a failed or empty `recv`, or after an answer. `waiting` is a call of
-- `recv` that has nothing to return yet.
pub data Ending : Type 0 where
  waiting reading_failed remote_closed correct_result something_wrong : Ending

-- The bytes that `recv` stores from `i` on.
unfoldable pub store : Buffer → ℕ → Bytes → Option Buffer
store b i [] = some b
store b i (c ∷ s) = do b ← poke b i c; store b (suc i) s

-- The buffer after `memset`.
unfoldable pub zeroed : ℕ → Buffer
zeroed size i = if ltb i size then some nul else none

abbrev pub at_start : ℕ → Session
at_start size = session (zeroed size) 0 check_state_requestline 0 []

-- What `main` does with a result, `none` if it goes on.
unfoldable pub answer : HttpCode → Option Ending
answer no_request = none
answer get_request = some correct_result
answer _ = some something_wrong

-- `continue` or `break` after an analysis.
unfoldable pub conclude :
    Option Ending → Session → Option (Ending × Session) → Option (Ending × Session)
conclude none s rest = rest
conclude (some e) s rest = some (e, s)

-- The `while` loop, on what the calls of `recv` give.
unfoldable pub serve : (fuel size : ℕ) → Session → List Received → Option (Ending × Session)
serve fuel size s [] = some (waiting, s)
serve fuel size s (failed ∷ rs) = some (reading_failed, s)
serve fuel size s (arrived [] ∷ rs) = some (remote_closed, s)
serve fuel size s (arrived (c ∷ cs) ∷ rs) = do
  b ← store s.buffer s.read_index (c ∷ cs)
  (code, t) ←
      parse_content fuel size (record s { buffer = b; read_index = s.read_index + length (c ∷ cs) })
  conclude (answer code) t (serve fuel size t rs)

-- The bytes stand in the buffer, those in front are as they were, and no index has gone.
abbrev pub Stored : Buffer → (i size : ℕ) → Bytes → Buffer → Type 0
Stored b i size s b' =
    Holds b' i s × ((j : ℕ) → j < i → b' j ≡ b j) × ((j : ℕ) → j < size → b' j ≢ none)

-- Storing within the buffer succeeds.
pub store-Stored :
    (s : Bytes) (b : Buffer) (i size : ℕ)
    → ((j : ℕ) → j < size → b j ≢ none)
    → i + length s ≤ size
    → Returns (Stored b i size s) (store b i s)
unfolding store
store-Stored [] b i size inside l = (tt, λ j h. refl, inside)
store-Stored (c ∷ s) b i size inside l = elim (Option-cases (b i)) [
  | inl e ↦ absurd (inside i (omega arith) e)
  | inr (d, e) ↦ rw e (
      Returns-then (Stored (put b i c) (suc i) size s) (Stored b i size (c ∷ s)) _
        (store-Stored s (put b i c) (suc i) size (λ j h. ground (arith, inside j)) (omega arith))
        λ b' r. (
          (r.1 i (omega arith) ∙ ground arith, r.0),
          (λ j h. r.1 j (omega arith) ∙ ground arith),
          r.2,
        ))
]

-- The client is told that all is well, and what has been printed.
abbrev pub Correct : List Output → Ending × Session → Type 0
Correct out (e, t) = (e ≡ correct_result) × (t.printed ≡ out)

pub conclude-Correct :
    (out : List Output) (code : HttpCode) (t : Session) (rest : Option (Ending × Session))
    → code ≡ get_request
    → t.printed ≡ out
    → Returns (Correct out) (conclude (answer code) t rest)
unfolding conclude answer
conclude-Correct out code t rest e h =
    subst (λ c. Returns (Correct out) (conclude (answer c) t rest)) (sym e) (refl, h)

module _ (l : RequestLine) (hs : List Bytes) (body : Bytes) (fuel size : ℕ)
    (clean : Clean (line_of l)) (ok : IsGet l) (headers : All (IsHeader size) hs)
    (fits : length (crlf (line_of l) (render hs body)) ≤ size)
    (enough : suc (length hs) < fuel) where
  abbrev whole : Bytes
  whole = crlf (line_of l) (render hs body)

  abbrev says : List Output
  says = method_is_get ∷ url_is (b'/' ∷ l.target) ∷ report hs

  -- The first `recv` has stored the request.
  parsed-Correct :
      (b : Buffer)
      → Holds b 0 whole
      → Returns
          (Complete (length whole - length body) says)
          (parse_content fuel size (session b 0 check_state_requestline (length whole) []))
  parsed-Correct b h =
      parse_content-Complete l hs body fuel size b 0 (length whole) [] h tt clean
        (omega (arith, fits, length-append {0} (line_of l) (cr ∷ lf ∷ render hs body))) ok headers
        enough (omega arith)

  serve_received :
      (s : Bytes) (rs : List Received)
      → s ≡ whole
      → Returns (Correct says) (serve fuel size (at_start size) (arrived s ∷ rs))
  unfolding serve
  serve_received [] rs e = absurd (
      omega (
        arith,
        ap (λ (t : Bytes). length t) e,
        length-append {0} (line_of l) (cr ∷ lf ∷ render hs body),
      ))
  serve_received (c ∷ cs) rs e =
      let len : 0 + length (c ∷ cs) ≡ length whole =
        ap (λ (t : Bytes). 0 + length t) e ∙ omega arith in
      let (b, stored, (h, _, _)) =
        Returns-result (Stored (zeroed size) 0 size (c ∷ cs)) (store (zeroed size) 0 (c ∷ cs)) (
          store-Stored (c ∷ cs) (zeroed size) 0 size (λ j m. unfold zeroed in ground arith)
            (omega (arith, fits, len))) in
      rw (stored, len)
        (Returns-bind (Complete (length whole - length body) says) (Correct says)
          (parse_content fuel size (session b 0 check_state_requestline (length whole) [])) _
          (parsed-Correct b (subst (λ t. Holds b 0 t) e h))
          λ r h. conclude-Correct says r.0 r.1 _ h.0 h.1)

-- A complete well-formed GET request (a GET line without NUL, CR and LF, header lines that are not
-- empty, without these bytes and shorter than the buffer, the empty line, and a body) that fits in
-- the zeroed receive buffer and arrives in one piece, with more fuel than lines, ends the server
-- loop with the answer "I get a correct result", after the method, the target and every header
-- line have been reported in order.
pub serve-Correct :
    (l : RequestLine) (hs : List Bytes) (body : Bytes) (fuel size : ℕ) (rs : List Received)
    → Clean (line_of l)
    → IsGet l
    → All (IsHeader size) hs
    → length (crlf (line_of l) (render hs body)) ≤ size
    → suc (length hs) < fuel
    → Returns
        (Correct (method_is_get ∷ url_is (b'/' ∷ l.target) ∷ report hs))
        (serve fuel size (at_start size) (arrived (crlf (line_of l) (render hs body)) ∷ rs))
serve-Correct l hs body fuel size rs clean ok headers fits enough =
    serve_received l hs body fuel size clean ok headers fits enough
      (crlf (line_of l) (render hs body)) rs refl
