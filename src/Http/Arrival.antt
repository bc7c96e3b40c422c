-- ===== src/Http/Arrival.antt =====
-- One more piece of a request: it is stored behind the others, and the analysis goes on.
use mathlib.Core.Path.{subst}
use mathlib.Core.List.{append_assoc}
use my_linux_demo.Base.{
  ℕ, zero, suc, ◌+◌, ◌-◌, ◌<◌, ◌≤◌, ◌≡◌, refl, sym, ap, ◌∙◌, inl, inr, some, List, [], ◌∷◌, ◌++◌,
  arith, length, length-append, All, Returns,
}
use my_linux_demo.Http.{
  Buffer, nul, cr, lf, parse_line, CheckState, check_state_requestline, check_state_header, Output,
  method_is_get, url_is,
}
use my_linux_demo.Http.CString.{Bytes}
use my_linux_demo.Http.Content.{Session, parse_content}
use my_linux_demo.Http.Scan.{Holds, NotAfterCr, line_end, outcome}
use my_linux_demo.Http.Resume.{parse_line-resumed, Holds-append, Holds-kept}
use my_linux_demo.Http.RequestLine.{RequestLine, line_of, IsGet}
use my_linux_demo.Http.Lines.{Clean, crlf, ended, Holds-frame, Holds-ended}
use my_linux_demo.Http.Whole.{IsHeader, render, session_in, request_step, Accepted_line}
use my_linux_demo.Http.Cut.{crlf-IsCut}
use my_linux_demo.Http.Pieces.{
  IsReady, fresh-IsReady, ready-EndsLine, IsLeft, IsWaiting, Analysed, open-Analysed,
  headers-Analysed,
}

NotAfterCr-kept :
    (b g : Buffer) (i : ℕ) → NotAfterCr b i → ((j : ℕ) → j < i → g j ≡ b j) → NotAfterCr g i
NotAfterCr-kept b g zero k f = tt
NotAfterCr-kept b g (suc i) (c, e, n) f = (c, f i (omega arith) ∙ e, n)

-- A session by its fields.
session_in-fields :
    (t : Session) (b : Buffer) (k r i m : ℕ)
    → t.start_line ≡ i
    → t.checked_index ≡ k
    → t.read_index + m ≡ r
    → session_in b k t.checkstate r i t.printed
      ≡ record t { buffer = b; read_index = t.read_index + m }
session_in-fields t b k r i m e f g =
    ap (λ (i : ℕ). session_in b k t.checkstate r i t.printed) (sym e)
    ∙ ap (λ (k : ℕ). session_in b k t.checkstate r t.start_line t.printed) (sym f)
    ∙ ap (λ (r : ℕ). session_in b t.checked_index t.checkstate r t.start_line t.printed) (sym g)

module _ (l : RequestLine) (hs : List Bytes) (body : Bytes) (size fuel : ℕ)
    (clean : Clean (line_of l)) (ok : IsGet l) (headers : All (IsHeader size) hs)
    (fits : length (line_of l) < size) (enough : suc (length hs) < fuel) where
  request-Analysed :
      (fuel' : ℕ)
      → fuel ≡ suc fuel'
      → (b₀ b : Buffer) (k r i : ℕ) (s q : Bytes) → IsReady b k r i s
      → s ++ q ≡ crlf (line_of l) (render hs body)
      → ((j : ℕ) → r ≤ j → b j ≡ b₀ j)
      → Returns
          (Analysed l hs body size b₀ r q)
          (parse_content (suc fuel') size (session_in b k check_state_requestline r i []))
  request-Analysed fuel' ef b₀ b k r i s q ready e keep =
      elim (crlf-IsCut (line_of l) (render hs body) s q clean e) [
        | inr (n, un) ↦
            open-Analysed l hs body size fuel' b₀ b k r i n check_state_requestline [] s q ready un
              (refl, e) keep
        | inl (t, es, et) ↦
            let whole = subst (λ u. IsReady b k r i u) es ready in
            let at = i + length (line_of l) in
            let len = length-append {0} (line_of l) (cr ∷ lf ∷ t) in
            let (b', run, same) = Accepted_line size b i l t whole.holds clean fits ok in
            let o = method_is_get ∷ url_is (b'/' ∷ l.target) ∷ [] in
            rw
              (request_step fuel' size b b' k i r [] o (line_of l)
                (ready-EndsLine b k r i (line_of l) t whole clean) run)
              (headers-Analysed l hs body size fuel' hs b₀ b' (suc (suc at)) r (suc (suc at)) o t q
                (fresh-IsReady b' (suc (suc at)) r t
                  (Holds-frame t (ended b at) b' (suc (suc at))
                    (Holds-ended (line_of l) t b i at whole.holds refl) λ j m. same j (omega arith))
                  (nul, same (suc at) (omega arith) ∙ ground arith, ground arith)
                  (omega (arith, whole.stops, len)))
                et headers refl (omega arith) (omega (arith, ef, enough)) (omega (arith, fits))
                λ j m.
                  same j (omega (arith, m, whole.stops, len))
                  ∙ ground (arith, keep j m, whole.stops, len))
      ]

  -- In either state of the machine.
  left-Analysed :
      (state : CheckState) (out : List Output) (b₀ b : Buffer) (k r i : ℕ) (s q : Bytes)
      → IsReady b k r i s
      → IsLeft l hs body size state out (s ++ q)
      → ((j : ℕ) → r ≤ j → b j ≡ b₀ j)
      → Returns
          (Analysed l hs body size b₀ r q)
          (parse_content fuel size (session_in b k state r i out))
  left-Analysed check_state_requestline out b₀ b k r i s q ready (o, e) keep =
      let ef : fuel ≡ suc (fuel - 1) = omega (arith, enough) in
      rw (o, ef) (request-Analysed (fuel - 1) ef b₀ b k r i s q ready e keep)
  left-Analysed check_state_header out b₀ b k r i s q ready (gs, e, good, o, m) keep =
      headers-Analysed l hs body size fuel gs b₀ b k r i out s q ready e good o m
        (omega (arith, m, enough)) (omega (arith, fits)) keep

  -- The piece `p` has been stored in the buffer `b`.
  pub arrived-Analysed :
      (b₀ b : Buffer) (r : ℕ) (p q : Bytes) (t : Session)
      → IsWaiting l hs body size b₀ r (p ++ q) t
      → Holds b r p
      → ((j : ℕ) → j < r → b j ≡ t.buffer j)
      → Returns
          (Analysed l hs body size b (r + length p) q)
          (parse_content fuel size (record t { buffer = b; read_index = t.read_index + length p }))
  arrived-Analysed b₀ b r p q t w h keep =
      let i = w.start in
      let n = w.offset in
      let s = w.seen in
      let holds =
        Holds-append s p b i (Holds-kept s t.buffer b i r w.holds (omega (arith, w.stops)) keep)
          (subst (λ j. Holds b j p) (sym w.stops) h) in
      let not_cr =
        NotAfterCr-kept t.buffer b i w.not_cr (λ j m. keep j (omega (arith, m, w.stops))) in
      let stops : i + length (s ++ p) ≡ r + length p =
        omega (arith, w.stops, length-append {0} s p) in
      let ready : IsReady b (i + n) (r + length p) i (s ++ p) = record {
        found =
            subst (λ j. parse_line b (i + n) j ≡ some (outcome b i (line_end (s ++ p)))) stops
              (parse_line-resumed s p b i n w.unread holds not_cr);
        holds = holds;
        not_cr = not_cr;
        stops = stops;
      } in
      let run =
        left-Analysed t.checkstate t.printed b b (i + n) (r + length p) i (s ++ p) q ready
          (subst (λ u. IsLeft l hs body size t.checkstate t.printed u) (sym (append_assoc s p q))
            w.left)
          (λ j m. refl) in
      let same =
        session_in-fields t b (i + n) (r + length p) i (length p) w.starts w.checked
          (omega (arith, w.reads)) in
      subst (λ u. Returns (Analysed l hs body size b (r + length p) q) (parse_content fuel size u))
        same run
