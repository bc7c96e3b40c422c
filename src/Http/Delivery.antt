-- ===== src/Http/Delivery.antt =====
-- The loop of `main` on a request that arrives in any pieces.
use mathlib.Core.Path.{subst}
use mathlib.Core.List.{append-nil}
use my_linux_demo.Base.{
  ℕ, suc, ◌+◌, ◌<◌, ◌≤◌, ◌≡◌, ◌≢◌, refl, sym, ap, ◌∙◌, inl, inr, Option, none, List, [], ◌∷◌, ◌++◌,
  map, arith, length, length-append, joined, All, Returns, Returns-then, Returns-bind, Option-cases,
}
use my_linux_demo.Http.{
  Buffer, put, cr, lf, CheckState, check_state_requestline, check_state_header, HttpCode,
  no_request, Output,
}
use my_linux_demo.Http.CString.{Bytes}
use my_linux_demo.Http.Content.{Session, parse_content}
use my_linux_demo.Http.Scan.{Holds, line_end, complete, unfinished}
use my_linux_demo.Http.RequestLine.{RequestLine, line_of, IsGet}
use my_linux_demo.Http.Lines.{Clean, crlf, line_end-crlf}
use my_linux_demo.Http.Whole.{IsHeader, render}
use my_linux_demo.Http.Pieces.{says_of, IsLeft, IsWaiting, Analysed}
use my_linux_demo.Http.Arrival.{arrived-Analysed}
use my_linux_demo.Http.Server.{
  Received, arrived, Ending, store, zeroed, at_start, answer, conclude, serve, Correct,
  conclude-Correct,
}

-- The bytes stand in the buffer, and all others are as they were.
abbrev IsStored : Buffer → ℕ → Bytes → Buffer → Type 0
IsStored b i s g =
    Holds g i s × ((j : ℕ) → j < i → g j ≡ b j) × ((j : ℕ) → i + length s ≤ j → g j ≡ b j)

store-IsStored :
    (s : Bytes) (b : Buffer) (i size : ℕ)
    → ((j : ℕ) → i ≤ j → j < size → b j ≢ none)
    → i + length s ≤ size
    → Returns (IsStored b i s) (store b i s)
unfolding store
store-IsStored [] b i size inside f = (tt, (λ j m. refl), λ j m. refl)
store-IsStored (c ∷ s) b i size inside f = elim (Option-cases (b i)) [
  | inl out ↦ absurd (inside i (omega arith) (omega (arith, f)) out)
  | inr (d, e) ↦ rw e (
      Returns-then (IsStored (put b i c) (suc i) s) (IsStored b i (c ∷ s)) _
        (store-IsStored s (put b i c) (suc i) size
          (λ j m n. ground (arith, inside j (omega (arith, m)) n)) (omega (arith, f)))
        λ g r. (
          (r.1 i (omega arith) ∙ ground arith, r.0),
          (λ j m. r.1 j (omega arith) ∙ ground arith),
          (λ j m. r.2 j (omega (arith, m)) ∙ ground (arith, m)),
        ))
]

conclude-open :
    (P : Ending × Session → Type 0) (code : HttpCode) (t : Session)
    (rest : Option (Ending × Session))
    → code ≡ no_request
    → Returns P rest
    → Returns P (conclude (answer code) t rest)
unfolding conclude answer
conclude-open P code t rest e h = subst (λ c. Returns P (conclude (answer c) t rest)) (sym e) h

module _ (l : RequestLine) (hs : List Bytes) (body : Bytes) (size fuel : ℕ)
    (clean : Clean (line_of l)) (ok : IsGet l) (headers : All (IsHeader size) hs)
    (fits : length (line_of l) < size) (enough : suc (length hs) < fuel) where
  abbrev whole : Bytes
  whole = crlf (line_of l) (render hs body)

  -- A line that is whole is not waited for.
  crlf-unread :
      (h rest s : Bytes) (n : ℕ) → Clean h → s ≡ crlf h rest → line_end s ≡ unfinished n → ⊥
  crlf-unread h rest s n cl e un =
      let both : complete (length h) ≡ unfinished n =
        sym (line_end-crlf h rest cl) ∙ ap line_end (sym e) ∙ un in
      cc

  left-unread :
      (state : CheckState) (out : List Output) (s : Bytes) (n : ℕ)
      → IsLeft l hs body size state out s
      → line_end s ≡ unfinished n
      → ⊥
  left-unread check_state_requestline out s n (o, e) un =
      crlf-unread (line_of l) (render hs body) s n clean e un
  left-unread check_state_header out s n ([], e, good, o, m) un = crlf-unread [] body s n tt e un
  left-unread check_state_header out s n (h ∷ gs, e, good, o, m) un =
      crlf-unread h (render gs body) s n good.0.1 e un

  serve_waiting :
      (b : Buffer) (r : ℕ) (ps : List Bytes) (t : Session) (more : List Received)
      → IsWaiting l hs body size b r (joined ps) t
      → All (λ p. p ≢ []) ps
      → r + length (joined ps) ≤ size
      → ((j : ℕ) → r ≤ j → j < size → b j ≢ none)
      → Returns (Correct (says_of l hs)) (serve fuel size t (map arrived ps ++ more))
  unfolding serve
  serve_waiting b r [] t more w nonempty room inside = absurd (
      left-unread t.checkstate t.printed w.seen w.offset
        (subst (λ u. IsLeft l hs body size t.checkstate t.printed u) (append-nil w.seen) w.left)
        w.unread)
  serve_waiting b r ([] ∷ ps) t more w nonempty room inside = absurd (nonempty.0 refl)
  serve_waiting b r ((c ∷ p) ∷ ps) t more w nonempty room inside =
      let len = length-append {0} (c ∷ p) (joined ps) in
      Returns-bind (IsStored t.buffer t.read_index (c ∷ p)) (Correct (says_of l hs))
        (store t.buffer t.read_index (c ∷ p)) _
        (store-IsStored (c ∷ p) t.buffer t.read_index size
          (λ j m n. λ e.
            inside j (omega (arith, m, w.reads)) n
              (sym (w.behind j (omega (arith, m, w.reads))) ∙ e))
          (omega (arith, room, len, w.reads)))
        λ g (held, below, above).
          Returns-bind (Analysed l hs body size g (r + length (c ∷ p)) (joined ps))
            (Correct (says_of l hs))
            (parse_content fuel size
              (record t { buffer = g; read_index = t.read_index + length (c ∷ p) }))
            _
            (arrived-Analysed l hs body size fuel clean ok headers fits enough b g r (c ∷ p)
              (joined ps) t w (subst (λ j. Holds g j (c ∷ p)) w.reads held)
              λ j m. below j (omega (arith, m, w.reads)))
            λ (code, t') done. elim done [
              | inl (e, o) ↦ conclude-Correct (says_of l hs) code t' _ e o
              | inr (e, w') ↦ conclude-open (Correct (says_of l hs)) code t' _ e (
                  serve_waiting g (r + length (c ∷ p)) ps t' more w' nonempty.1
                    (omega (arith, room, len))
                    λ j m n q. inside j (omega (arith, m)) n (
                      sym (w.behind j (omega (arith, m)))
                      ∙ sym (above j (omega (arith, m, w.reads)))
                      ∙ q))
            ]

-- A complete well-formed GET request (a GET line without NUL, CR and LF, header lines that are not
-- empty, without these bytes and shorter than the buffer, the empty line, and a body) that fits in
-- the zeroed receive buffer, with more fuel than lines, ends the server loop with the answer "I
-- get a correct result", after the method, the target and every header line have been reported
-- once each and in order: in whatever non-empty pieces recv gives the request, and whatever would
-- come behind.
pub serve-pieces :
    (l : RequestLine) (hs : List Bytes) (body : Bytes) (fuel size : ℕ) (ps : List Bytes)
    (more : List Received)
    → Clean (line_of l)
    → IsGet l
    → All (IsHeader size) hs
    → length (crlf (line_of l) (render hs body)) ≤ size
    → suc (length hs) < fuel
    → All (λ p. p ≢ []) ps
    → joined ps ≡ crlf (line_of l) (render hs body)
    → Returns (Correct (says_of l hs)) (serve fuel size (at_start size) (map arrived ps ++ more))
serve-pieces l hs body fuel size ps more clean ok headers fits enough nonempty e =
    serve_waiting l hs body size fuel clean ok headers
      (omega (arith, fits, length-append {0} (line_of l) (cr ∷ lf ∷ render hs body))) enough
      (zeroed size) 0 ps (at_start size) more
      (record {
        start = 0;
        seen = [];
        offset = 0;
        starts = refl;
        checked = refl;
        unread = unfold line_end in refl;
        reads = refl;
        stops = refl;
        holds = tt;
        not_cr = tt;
        left = (refl, e);
        behind = λ j m. refl;
      })
      nonempty (omega (arith, fits, ap (λ (u : Bytes). length u) e))
      λ j m n. unfold zeroed in ground arith
