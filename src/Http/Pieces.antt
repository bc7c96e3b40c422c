-- ===== src/Http/Pieces.antt =====
-- `parse_content` on the part of a request that has arrived so far.
use mathlib.Core.Path.{subst}
use mathlib.Core.List.{append_assoc}
use my_linux_demo.Base.{
  ℕ, zero, suc, ◌+◌, ◌<◌, ◌≤◌, ◌≡◌, ◌⊎◌, refl, ap, ◌∙◌, inl, inr, some, List, [], ◌∷◌, ◌++◌, arith,
  length, length-append, All, Returns,
}
use my_linux_demo.Http.{
  Buffer, cr, lf, line_open, parse_line, CheckState, check_state_requestline, check_state_header,
  HttpCode, no_request, get_request, Output, method_is_get, url_is,
}
use my_linux_demo.Http.CString.{Bytes}
use my_linux_demo.Http.Content.{Session, parse_content, analyse}
use my_linux_demo.Http.Scan.{Holds, NotAfterCr, line_end, unfinished, outcome, parse_line-outcome}
use my_linux_demo.Http.RequestLine.{RequestLine, line_of}
use my_linux_demo.Http.Lines.{Clean, crlf, ended, Holds-ended, NotAfterCr-ended, line_end-crlf}
use my_linux_demo.Http.Whole.{
  IsHeader, render, report, reports, session_in, EndsLine, header_step, empty_step,
}
use my_linux_demo.Http.Cut.{crlf-IsCut}

-- The bytes `s` stand in the line that starts at `i`, up to `r`, and `parse_line` called at `k` finds
-- what it would find at `i`.
pub record IsReady (b : Buffer) (k r i : ℕ) (s : Bytes) : Type 0 where
  pub found : parse_line b k r ≡ some (outcome b i (line_end s))
  pub holds : Holds b i s
  pub not_cr : NotAfterCr b i
  pub stops : i + length s ≡ r

pub fresh-IsReady :
    (b : Buffer) (i r : ℕ) (s : Bytes)
    → Holds b i s
    → NotAfterCr b i
    → i + length s ≡ r
    → IsReady b i r i s
fresh-IsReady b i r s h k e = record {
  found = parse_line-outcome s b i r h k e;
  holds = h;
  not_cr = k;
  stops = e;
}

pub ready-EndsLine :
    (b : Buffer) (k r i : ℕ) (h t : Bytes)
    → IsReady b k r i (crlf h t)
    → Clean h
    → EndsLine b k r i h
ready-EndsLine b k r i h t ready cl =
    ready.found ∙ ap (λ e. some (outcome b i e)) (line_end-crlf h t cl)

open_step :
    (fuel size : ℕ) (b : Buffer) (k r i n : ℕ) (s : Bytes) (state : CheckState) (out : List Output)
    → IsReady b k r i s
    → line_end s ≡ unfinished n
    → parse_content (suc fuel) size (session_in b k state r i out)
      ≡ some (no_request, session_in b (i + n) state r i out)
unfolding parse_content analyse
open_step fuel size b k r i n s state out ready e =
    let line : parse_line b k r ≡ some (line_open, b, i + n) =
      ready.found ∙ ap (λ e. some (outcome b i e)) e in
    rw line refl

-- What is reported of the request.
abbrev pub says_of : RequestLine → List Bytes → List Output
says_of l hs = method_is_get ∷ url_is (b'/' ∷ l.target) ∷ report hs

module _ (l : RequestLine) (hs : List Bytes) (body : Bytes) (size : ℕ) where
  -- What is left of the request, in a state of the machine with `out` printed.
  abbrev pub IsLeft : CheckState → List Output → Bytes → Type 0
  IsLeft check_state_requestline out rest = (out ≡ []) × (rest ≡ crlf (line_of l) (render hs body))
  IsLeft check_state_header out rest =
      (gs : List Bytes) × (rest ≡ render gs body)
      × All (IsHeader size) gs
      × (out ++ report gs ≡ says_of l hs)
      × (length gs ≤ length hs)

  -- The analysis waits for more in the line that starts at `start`: `seen` of it is in the buffer,
  -- which is `b` from `r` on, where the bytes received so far end, and `q` is still to come.
  pub record IsWaiting (b : Buffer) (r : ℕ) (q : Bytes) (t : Session) : Type 0 where
    pub start : ℕ
    pub seen : Bytes
    pub offset : ℕ
    pub starts : t.start_line ≡ start
    pub checked : t.checked_index ≡ start + offset
    pub unread : line_end seen ≡ unfinished offset
    pub reads : t.read_index ≡ r
    pub stops : start + length seen ≡ r
    pub holds : Holds t.buffer start seen
    pub not_cr : NotAfterCr t.buffer start
    pub left : IsLeft t.checkstate t.printed (seen ++ q)
    pub behind : (j : ℕ) → r ≤ j → t.buffer j ≡ b j

  -- Either the request is complete, or the analysis waits.
  abbrev pub Analysed : Buffer → ℕ → Bytes → HttpCode × Session → Type 0
  Analysed b r q (code, t) =
      ((code ≡ get_request) × (t.printed ≡ says_of l hs))
      ⊎ ((code ≡ no_request) × IsWaiting b r q t)

  pub open-Analysed :
      (fuel : ℕ) (b₀ b : Buffer) (k r i n : ℕ) (state : CheckState) (out : List Output)
      (s q : Bytes)
      → IsReady b k r i s
      → line_end s ≡ unfinished n
      → IsLeft state out (s ++ q)
      → ((j : ℕ) → r ≤ j → b j ≡ b₀ j)
      → Returns (Analysed b₀ r q) (parse_content (suc fuel) size (session_in b k state r i out))
  open-Analysed fuel b₀ b k r i n state out s q ready un left keep =
      rw (open_step fuel size b k r i n s state out ready un) (
        inr (
          refl,
          record {
            start = i;
            seen = s;
            offset = n;
            starts = refl;
            checked = refl;
            unread = un;
            reads = refl;
            stops = ready.stops;
            holds = ready.holds;
            not_cr = ready.not_cr;
            left = left;
            behind = keep;
          },
        ))

  -- Behind the end of the line `h`, the rest `t` is ready.
  next-IsReady :
      (b : Buffer) (k r i : ℕ) (h t : Bytes)
      → IsReady b k r i (crlf h t)
      → IsReady (ended b (i + length h)) (suc (suc (i + length h))) r (suc (suc (i + length h))) t
  next-IsReady b k r i h t ready =
      fresh-IsReady (ended b (i + length h)) (suc (suc (i + length h))) r t
        (Holds-ended h t b i (i + length h) ready.holds refl) (NotAfterCr-ended b (i + length h))
        (omega (arith, ready.stops, length-append {0} h (cr ∷ lf ∷ t)))

  ended-behind :
      (b₀ b : Buffer) (k r i : ℕ) (h t : Bytes)
      → IsReady b k r i (crlf h t)
      → ((j : ℕ) → r ≤ j → b j ≡ b₀ j)
      → (j : ℕ) → r ≤ j
      → ended b (i + length h) j ≡ b₀ j
  ended-behind b₀ b k r i h t ready keep j m =
      let len = length-append {0} h (cr ∷ lf ∷ t) in ground (arith, ready.stops, len, keep j m)

  pub headers-Analysed :
      (fuel : ℕ) (gs : List Bytes) (b₀ b : Buffer) (k r i : ℕ) (out : List Output) (s q : Bytes)
      → IsReady b k r i s
      → s ++ q ≡ render gs body
      → All (IsHeader size) gs
      → out ++ report gs ≡ says_of l hs
      → length gs ≤ length hs
      → length gs < fuel
      → 0 < size
      → ((j : ℕ) → r ≤ j → b j ≡ b₀ j)
      → Returns
          (Analysed b₀ r q)
          (parse_content fuel size (session_in b k check_state_header r i out))
  headers-Analysed zero gs b₀ b k r i out s q ready e ok o m f z keep = absurd (omega (arith, f))
  headers-Analysed (suc fuel) [] b₀ b k r i out s q ready e ok o m f z keep =
      elim (crlf-IsCut [] body s q tt e) [
        | inr (n, un) ↦
            open-Analysed fuel b₀ b k r i n check_state_header out s q ready un ([], e, ok, o, m)
              keep
        | inl (t, es, et) ↦
            let whole = subst (λ u. IsReady b k r i u) es ready in
            rw
              (empty_step fuel size b k i r out t whole.holds (ready-EndsLine b k r i [] t whole tt)
                z)
              (inl (refl, o))
      ]
  headers-Analysed (suc fuel) ([] ∷ gs) b₀ b k r i out s q ready e ok o m f z keep =
      absurd (ok.0.0 refl)
  headers-Analysed (suc fuel) ((c ∷ h) ∷ gs) b₀ b k r i out s q ready e ok o m f z keep =
      elim (crlf-IsCut (c ∷ h) (render gs body) s q ok.0.1 e) [
        | inr (n, un) ↦
            open-Analysed fuel b₀ b k r i n check_state_header out s q ready un
              ((c ∷ h) ∷ gs, e, ok, o, m) keep
        | inl (t, es, et) ↦
            let whole = subst (λ u. IsReady b k r i u) es ready in
            rw
              (header_step fuel size b k i r out c h t whole.holds
                (ready-EndsLine b k r i (c ∷ h) t whole ok.0.1) ok.0.1 ok.0.2)
              (headers-Analysed fuel gs b₀ (ended b (i + length (c ∷ h)))
                (suc (suc (i + length (c ∷ h)))) r (suc (suc (i + length (c ∷ h))))
                (out ++ reports (c ∷ h)) t q (next-IsReady b k r i (c ∷ h) t whole) et ok.1
                (append_assoc out (reports (c ∷ h)) (report gs) ∙ o) (omega (arith, m))
                (omega (arith, f)) z (ended-behind b₀ b k r i (c ∷ h) t whole keep))
      ]
