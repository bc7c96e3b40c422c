-- ===== src/Http/Whole.antt =====
-- `parse_content` on a whole request.
use mathlib.Core.Path.{subst}
use mathlib.Core.List.{append_assoc}
use my_linux_demo.Base.{
  ℕ, zero, suc, ◌+◌, ◌-◌, ◌<◌, ◌≤◌, ◌≡◌, ◌≢◌, refl, ◌∙◌, some, List, [], ◌∷◌, ◌++◌, arith, length,
  length-append, All, Returns, Returns-result,
}
use my_linux_demo.Http.{
  Buffer, nul, cr, lf, line_ok, parse_line, CheckState, check_state_requestline, check_state_header,
  HttpCode, no_request, get_request, Output, method_is_get, url_is,
}
use my_linux_demo.Http.CString.{Bytes}
use my_linux_demo.Http.Request.{parse_requestline}
use my_linux_demo.Http.Content.{Session, analyse, parse_content}
use my_linux_demo.Http.Scan.{Holds, NotAfterCr}
use my_linux_demo.Http.RequestLine.{
  RequestLine, line_of, IsGet, Accepted, parse_requestline-Accepted,
}
use my_linux_demo.Http.Headers.{header_of, parse_headers-header_of}
use my_linux_demo.Http.Lines.{
  Clean, crlf, ended, Text-ended, Holds-frame, Holds-ended, NotAfterCr-ended, parse_line-crlf,
}

-- What a line that is not empty reports, and that the analysis goes on behind it.
pub reports : Bytes → List Output
reports s = (header_of s).1

header_of-cons : (c : ℕ) (s : Bytes) → header_of (c ∷ s) ≡ (no_request, reports (c ∷ s))
unfolding header_of reports
header_of-cons c s = ground arith

-- The session in a line that starts at `i`, of which the bytes in front of `k` have been analysed.
abbrev pub session_in : Buffer → (k : ℕ) → CheckState → (r i : ℕ) → List Output → Session
session_in b k state r i out = record {
  buffer = b;
  checked_index = k;
  checkstate = state;
  read_index = r;
  start_line = i;
  printed = out;
}

-- The session at the start of a line.
abbrev pub session : Buffer → ℕ → CheckState → ℕ → List Output → Session
session b i state r out = session_in b i state r i out

-- `parse_line` finds the end of the line `s` that starts at `i`.
abbrev pub EndsLine : Buffer → (k r i : ℕ) → Bytes → Type 0
EndsLine b k r i s =
    parse_line b k r ≡ some (line_ok, ended b (i + length s), suc (suc (i + length s)))

-- Header lines, the empty line behind them, and what may follow.
abbrev pub render : List Bytes → Bytes → Bytes
render [] body = crlf [] body
render (h ∷ hs) body = crlf h (render hs body)

abbrev pub report : List Bytes → List Output
report [] = []
report (h ∷ hs) = reports h ++ report hs

-- A header line: not empty, clean, and shorter than the buffer.
abbrev pub IsHeader : ℕ → Bytes → Type 0
IsHeader size h = (h ≢ []) × Clean h × (length h < size)

-- The end of the headers is reached at `end`, with `out` printed.
abbrev pub Complete : ℕ → List Output → HttpCode × Session → Type 0
Complete end out (code, t) =
    (code ≡ get_request) × (t.printed ≡ out) × (t.checked_index ≡ end) × (t.start_line ≡ end)

pub header_step :
    (fuel size : ℕ) (b : Buffer) (k i r : ℕ) (out : List Output) (c : ℕ) (h rest : Bytes)
    → Holds b i (crlf (c ∷ h) rest)
    → EndsLine b k r i (c ∷ h)
    → Clean (c ∷ h)
    → length (c ∷ h) < size
    → parse_content (suc fuel) size (session_in b k check_state_header r i out)
      ≡ parse_content fuel size (
          session
            (ended b (i + length (c ∷ h)))
            (suc (suc (i + length (c ∷ h))))
            check_state_header
            r
            (out ++ reports (c ∷ h)))
unfolding parse_content analyse
header_step fuel size b k i r out c h rest holds line cl f =
    let text = Text-ended (c ∷ h) rest b i (i + length (c ∷ h)) holds cl refl in
    let head = parse_headers-header_of size (ended b (i + length (c ∷ h))) i (c ∷ h) text f in
    rw line (rw head (rw (header_of-cons c h) refl))

pub empty_step :
    (fuel size : ℕ) (b : Buffer) (k i r : ℕ) (out : List Output) (rest : Bytes)
    → Holds b i (crlf [] rest)
    → EndsLine b k r i []
    → 0 < size
    → parse_content (suc fuel) size (session_in b k check_state_header r i out)
      ≡ some (
        get_request,
        session (ended b (i + 0)) (suc (suc (i + 0))) check_state_header r (out ++ []),
      )
unfolding parse_content analyse
empty_step fuel size b k i r out rest holds line z =
    let text = Text-ended [] rest b i (i + 0) holds tt refl in
    let head = parse_headers-header_of size (ended b (i + 0)) i [] text z in
    rw line (rw head (unfold header_of in refl))

headers-Complete :
    (hs : List Bytes) (body : Bytes) (fuel size : ℕ) (b : Buffer) (i r : ℕ) (out : List Output)
    → Holds b i (render hs body)
    → NotAfterCr b i
    → All (IsHeader size) hs
    → length hs < fuel
    → 0 < size
    → i + length (render hs body) ≡ r
    → Returns
        (Complete (r - length body) (out ++ report hs))
        (parse_content fuel size (session b i check_state_header r out))
headers-Complete hs body zero size b i r out h k ok f z e = absurd (omega arith)
headers-Complete [] body (suc fuel) size b i r out h k ok f z e =
    rw (empty_step fuel size b i i r out body h (parse_line-crlf [] body b i r h k tt e) z)
      (refl, refl, omega arith, omega arith)
headers-Complete ([] ∷ hs) body (suc fuel) size b i r out h k ok f z e = absurd (ok.0.0 refl)
headers-Complete ((c ∷ l) ∷ hs) body (suc fuel) size b i r out h k ok f z e =
    let at = i + length (c ∷ l) in
    rw
      (header_step fuel size b i i r out c l (render hs body) h
        (parse_line-crlf (c ∷ l) (render hs body) b i r h k ok.0.1 e) ok.0.1 ok.0.2)
      (subst
        (λ o. Returns (Complete (r - length body) o) (
          parse_content fuel size
            (session (ended b at) (suc (suc at)) check_state_header r (out ++ reports (c ∷ l)))))
        (append_assoc out (reports (c ∷ l)) (report hs))
        (headers-Complete hs body fuel size (ended b at) (suc (suc at)) r (out ++ reports (c ∷ l))
          (Holds-ended (c ∷ l) (render hs body) b i at h refl) (NotAfterCr-ended b at) ok.1
          (omega arith) z (omega (arith, length-append {0} (c ∷ l) (cr ∷ lf ∷ render hs body)))))

pub request_step :
    (fuel size : ℕ) (b b' : Buffer) (k i r : ℕ) (out o : List Output) (s : Bytes)
    → EndsLine b k r i s
    → parse_requestline size (ended b (i + length s)) i check_state_requestline
      ≡ some (no_request, b', check_state_header, o)
    → parse_content (suc fuel) size (session_in b k check_state_requestline r i out)
      ≡ parse_content fuel size
          (session b' (suc (suc (i + length s))) check_state_header r (out ++ o))
unfolding parse_content analyse
request_step fuel size b b' k i r out o s ends line = rw ends (rw line refl)

-- The request line is accepted as it stands in the buffer.
pub Accepted_line :
    (size : ℕ) (b : Buffer) (i : ℕ) (l : RequestLine) (rest : Bytes)
    → Holds b i (crlf (line_of l) rest)
    → Clean (line_of l)
    → length (line_of l) < size
    → IsGet l
    → (b' : Buffer) × (parse_requestline size
          (ended b (i + length (line_of l)))
          i
          check_state_requestline
        ≡ some (no_request, b', check_state_header, method_is_get ∷ url_is (b'/' ∷ l.target) ∷ []))
      × ((j : ℕ) → i + length (line_of l) ≤ j → b' j ≡ ended b (i + length (line_of l)) j)
Accepted_line size b i l rest h c f ok =
    let k = i + length (line_of l) in
    let (r, e, (code, state, out, keep)) =
      Returns-result (λ r. Accepted (ended b k) k (b'/' ∷ l.target) r)
        (parse_requestline size (ended b k) i check_state_requestline)
        (parse_requestline-Accepted size i (ended b k) check_state_requestline l
          (Text-ended (line_of l) rest b i k h c refl) f ok) in
    (r.1, e ∙ ground arith, keep)

-- parse_content, with more fuel than lines, on a complete request in the buffer (a well-formed GET
-- line and header lines that are not empty, without NUL, CR and LF and shorter than the buffer,
-- the empty line, and a body) with no CR in front of it, returns GET_REQUEST with checked_index
-- and start_line behind the empty line, and reports method, target and headers in order.
pub parse_content-Complete :
    (l : RequestLine) (hs : List Bytes) (body : Bytes) (fuel size : ℕ) (b : Buffer) (i r : ℕ)
    (out : List Output)
    → Holds b i (crlf (line_of l) (render hs body))
    → NotAfterCr b i
    → Clean (line_of l)
    → length (line_of l) < size
    → IsGet l
    → All (IsHeader size) hs
    → suc (length hs) < fuel
    → i + length (crlf (line_of l) (render hs body)) ≡ r
    → Returns
        (Complete
          (r - length body)
          ((out ++ method_is_get ∷ url_is (b'/' ∷ l.target) ∷ []) ++ report hs))
        (parse_content fuel size (session b i check_state_requestline r out))
parse_content-Complete l hs body zero size b i r out h k c f ok ok' n e = absurd (omega arith)
parse_content-Complete l hs body (suc fuel) size b i r out h k c f ok ok' n e =
    let s = line_of l in
    let at = i + length s in
    let (b', run, keep) = Accepted_line size b i l (render hs body) h c f ok in
    let o = method_is_get ∷ url_is (b'/' ∷ l.target) ∷ [] in
    rw
      (request_step fuel size b b' i i r out o s (parse_line-crlf s (render hs body) b i r h k c e)
        run)
      (headers-Complete hs body fuel size b' (suc (suc at)) r (out ++ o)
        (Holds-frame (render hs body) (ended b at) b' (suc (suc at))
          (Holds-ended s (render hs body) b i at h refl) λ j m. keep j (omega arith))
        (nul, keep (suc at) (omega arith) ∙ ground arith, ground arith) ok' (omega arith)
        (omega arith) (omega (arith, length-append {0} s (cr ∷ lf ∷ render hs body))))
