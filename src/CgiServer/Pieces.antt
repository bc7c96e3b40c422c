-- ===== src/CgiServer/Pieces.antt =====
-- A file name that arrives in pieces.
use mathlib.Core.Path.{subst}
use mathlib.Core.List.{append_assoc, append-nil}
use my_linux_demo.Base.{
  ℕ, suc, ◌+◌, ◌-◌, ◌<◌, ◌≤◌, ◌≡◌, ◌≢◌, refl, sym, ap, ◌∙◌, Bool, Option, none, some, List, [], ◌∷◌,
  ◌++◌, ◌>>=◌, arith, ◌==◌, if◌then◌else◌, length, length-append, All, Bool-cases, Option-cases,
  inl, inr, Returns-result,
}
use my_linux_demo.Http.{Buffer, put, poke, cr, lf, nul}
use my_linux_demo.Http.CString.{Bytes, c_string}
use my_linux_demo.Http.Resume.{Holds-append, Holds-kept}
use my_linux_demo.Http.Scan.{Holds}
use my_linux_demo.Http.Text.{Text, c_string-Text}
use my_linux_demo.Http.Server.{store, zeroed, Stored, store-Stored}
use my_linux_demo.CgiServer.{
  CgiConn, init, buffer_size, Recv, again, failed, closed, got, Fork, CgiAction, search, answer,
  process,
}
use my_linux_demo.CgiServer.Search.{
  end_at, end_at-le, end_at-append, end_at-found, end_at-crlf, last_of, IsPrev, search-end_at,
  Holds-IsPrev, Holds-prefix, Holds-Text,
}

-- What arrives, if no `recv` fails and the peer does not close.
abbrev pub contents : List Recv → Bytes
contents [] = []
contents (got bs ∷ rs) = bs ++ contents rs
contents (r ∷ rs) = contents rs

abbrev pub IsPiece : Recv → Type 0
IsPiece again = Unit
IsPiece (got bs) = Unit
IsPiece r = ⊥

-- The bytes `p` have arrived, with no CR LF among them.
record HasRead (p : Bytes) (s : CgiConn) : Type 0 where
  holds : Holds s.m_buff 0 p
  counts : s.m_read_idx ≡ length p
  inside : (j : ℕ) → j < buffer_size → s.m_buff j ≢ none
  no_end : end_at nul p ≡ length p

-- A file name: no NUL, no CR LF.
pub record IsName (line : Bytes) : Type 0 where
  pub no_nul : All (λ c. c ≢ nul) line
  pub no_crlf : end_at nul line ≡ length line

module _ (exists : Bytes → Bool) (f : Fork) (line rest : Bytes) (name : IsName line)
    (fits : length line + 2 + length rest < buffer_size) where
  abbrev whole : Bytes
  whole = line ++ (cr ∷ lf ∷ rest)

  length-whole : length whole ≡ length line + 2 + length rest
  length-whole = omega (arith, length-append {0} line (cr ∷ lf ∷ rest))

  -- What `process` does when the piece `bs` is stored.
  abbrev on_piece : ℕ → Buffer → Bytes → List Recv → Option (List CgiAction)
  on_piece n b bs rs = do
    idx ← search (length bs) b n
    let read_idx = n + length bs
    let next = process exists f (record { m_buff = b; m_read_idx = read_idx }) rs
    let run = do
      b ← poke b (idx - 1) nul
      file ← c_string buffer_size b 0
      some (answer exists f file)
    if idx == read_idx then next else run

  on_piece-answer :
      (p bs : Bytes) (b : Buffer) (rs : List Recv)
      → Holds b 0 p
      → Holds b (length p) bs
      → ((j : ℕ) → j < buffer_size → b j ≢ none)
      → end_at nul p ≡ length p
      → p ++ (bs ++ contents rs) ≡ whole
      → (HasRead (p ++ bs) (record { m_buff = b; m_read_idx = length p + length bs })
          → process exists f (record { m_buff = b; m_read_idx = length p + length bs }) rs
            ≡ some (answer exists f line))
      → on_piece (length p) b bs rs ≡ some (answer exists f line)
  on_piece-answer p bs b rs hp hb inside no_end e next =
      let v = last_of nul p in
      let k = end_at v bs in
      let found : search (length bs) b (length p) ≡ some (length p + k) =
        search-end_at bs b (length p) v hb
          (subst (λ (j : ℕ). IsPrev b j v) (omega arith) (Holds-IsPrev p b 0 nul refl hp)) in
      let both : Holds b 0 (p ++ bs) =
        Holds-append p bs b 0 hp (subst (λ (j : ℕ). Holds b j bs) (omega arith) hb) in
      let at : end_at nul (p ++ bs) ≡ length p + k = end_at-append nul p bs no_end in
      let len : length (p ++ bs) ≡ length p + length bs = length-append p bs in
      rw found (elim (Bool-cases (length p + k == length p + length bs)) [
        | inl open_yet ↦ rw open_yet (
            next (record {
              holds = both;
              counts = sym len;
              inside = inside;
              no_end = at ∙ ground arith;
            }))
        | inr ended ↦
            let l : end_at nul (p ++ bs) < length (p ++ bs) =
              ground (arith, at, len, end_at-le v bs) in
            let e' : (p ++ bs) ++ contents rs ≡ whole = append_assoc p bs (contents rs) ∙ e in
            let q : end_at nul (p ++ bs) ≡ suc (length line) =
              sym (end_at-found nul (p ++ bs) (contents rs) l)
              ∙ ap (λ w. end_at nul w) e'
              ∙ end_at-crlf nul line rest name.no_crlf in
            let idx : length p + k - 1 ≡ length line = omega (arith, at, q) in
            let held : Holds b 0 line =
              Holds-prefix (p ++ bs) (contents rs) line (cr ∷ lf ∷ rest) b 0 both e'
                (omega (arith, q, l)) in
            let text : Text (put b (length line) nul) 0 line =
              Holds-Text line b 0 (length line) held name.no_nul (omega arith) in
            let read : c_string buffer_size (put b (length line) nul) 0 ≡ some line =
              c_string-Text buffer_size (put b (length line) nul) 0 line text
                (omega (arith, fits)) in
            elim (Option-cases (b (length line))) [
              | inl out ↦ absurd (inside (length line) (omega (arith, fits)) out)
              | inr (c, here) ↦ rw (ended, idx, here, read) refl
            ]
      ])

  process-answer :
      (p : Bytes) (s : CgiConn) (rs : List Recv)
      → HasRead p s
      → All IsPiece rs
      → p ++ contents rs ≡ whole
      → process exists f s rs ≡ some (answer exists f line)
  unfolding process
  process-answer p s [] h ok e = absurd (
      omega (
        arith,
        h.no_end,
        ap (λ (w : Bytes). end_at nul w) (sym (append-nil p) ∙ e),
        end_at-crlf nul line rest name.no_crlf,
        ap (λ (w : Bytes). length w) (sym (append-nil p) ∙ e),
        length-whole,
      ))
  process-answer p s (again ∷ rs) h ok e = process-answer p s rs h ok.1 e
  process-answer p s (failed ∷ rs) h ok e = absurd ok.0
  process-answer p s (closed ∷ rs) h ok e = absurd ok.0
  process-answer p s (got bs ∷ rs) h ok e =
      let len : length p + length bs ≤ buffer_size = omega (
        arith,
        fits,
        ap (λ (w : Bytes). length w) e,
        length-whole,
        length-append {0} p (bs ++ contents rs),
        length-append {0} bs (contents rs),
      ) in
      let n : s.m_read_idx ≡ length p = h.counts in
      let (b, stored, (hb, below, inside)) =
        Returns-result (Stored s.m_buff (length p) buffer_size bs) (store s.m_buff (length p) bs)
          (store-Stored bs s.m_buff (length p) buffer_size h.inside len) in
      simp (n, stored)
        (on_piece-answer p bs b rs
          (Holds-kept p s.m_buff b 0 (length p) h.holds (omega arith) below) hb inside h.no_end e
          λ h'.
            process-answer (p ++ bs) (record { m_buff = b; m_read_idx = length p + length bs }) rs
              h' ok.1 (append_assoc p bs (contents rs) ∙ e))

-- A file name without NUL and without CR LF, followed by CR LF and fewer bytes than fit the
-- buffer, is answered by process once and in the same way in whatever pieces it arrives and
-- however often recv gives EAGAIN in between: the file is executed in the child if it exists, and
-- the socket is removed otherwise.
pub pieces-answer :
    (exists : Bytes → Bool) (f : Fork) (line rest : Bytes) (rs : List Recv)
    → IsName line
    → length line + 2 + length rest < buffer_size
    → All IsPiece rs
    → contents rs ≡ line ++ (cr ∷ lf ∷ rest)
    → process exists f init rs ≡ some (answer exists f line)
unfolding init
pieces-answer exists f line rest rs name fits ok e =
    process-answer exists f line rest name fits [] init rs
      (record {
        holds = tt;
        counts = refl;
        inside = λ j l. unfold zeroed in ground arith;
        no_end = unfold end_at in refl;
      })
      ok e
