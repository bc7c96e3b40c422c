-- ===== src/Http/Lines.antt =====
-- `parse_line` at a line that ends in CR LF, and what the line's end leaves in the buffer.
use mathlib.Core.Path.{subst}
use my_linux_demo.Base.{
  ℕ, suc, ◌+◌, ◌≤◌, ◌≡◌, ◌≢◌, refl, ap, ◌∙◌, false, some, [], ◌∷◌, ◌++◌, arith, ◌==◌, length, All,
}
use my_linux_demo.Http.{Buffer, put, nul, cr, lf, line_ok, parse_line}
use my_linux_demo.Http.CString.{Bytes}
use my_linux_demo.Http.Scan.{
  complete, later, line_end, Holds, NotAfterCr, outcome, parse_line-outcome,
}
use my_linux_demo.Http.Resume.{line_end-cons}
use my_linux_demo.Http.Text.{Text}

-- No NUL, CR or LF is in the line.
abbrev pub Clean : Bytes → Type 0
Clean s = All (λ c. (c ≢ nul) × ((c == cr) ≡ false) × ((c == lf) ≡ false)) s

abbrev pub crlf : Bytes → Bytes → Bytes
crlf s rest = s ++ (cr ∷ lf ∷ rest)

pub line_end-crlf : (s rest : Bytes) → Clean s → line_end (crlf s rest) ≡ complete (length s)
line_end-crlf [] rest c = unfold line_end in refl
line_end-crlf (d ∷ s) rest c =
    line_end-cons d (crlf s rest) c.0.1 c.0.2 ∙ ap later (line_end-crlf s rest c.1)

-- The buffer once the end of the line at `k` is overwritten.
abbrev pub ended : Buffer → ℕ → Buffer
ended b k = put (put b k nul) (suc k) nul

pub Text-ended :
    (s rest : Bytes) (b : Buffer) (i k : ℕ)
    → Holds b i (crlf s rest)
    → Clean s
    → k ≡ i + length s
    → Text (ended b k) i s
Text-ended [] rest b i k h c e = ground arith
Text-ended (d ∷ s) rest b i k h c e =
    (ground arith, c.0.0, Text-ended s rest b (suc i) k h.1 c.1 (omega arith))

pub Holds-frame :
    (s : Bytes) (b b' : Buffer) (i : ℕ)
    → Holds b i s
    → ((j : ℕ) → i ≤ j → b' j ≡ b j)
    → Holds b' i s
Holds-frame [] b b' i h f = tt
Holds-frame (d ∷ s) b b' i h f =
    (f i (omega arith) ∙ h.0, Holds-frame s b b' (suc i) h.1 λ j l. f j (omega arith))

Holds-rear :
    (s rest : Bytes) (b : Buffer) (i k : ℕ)
    → Holds b i (crlf s rest)
    → k ≡ i + length s
    → Holds b (suc (suc k)) rest
Holds-rear [] rest b i k h e =
    let z : suc (suc i) ≡ suc (suc k) = omega arith in subst (λ j. Holds b j rest) z h.1.1
Holds-rear (d ∷ s) rest b i k h e = Holds-rear s rest b (suc i) k h.1 (omega arith)

pub Holds-ended :
    (s rest : Bytes) (b : Buffer) (i k : ℕ)
    → Holds b i (crlf s rest)
    → k ≡ i + length s
    → Holds (ended b k) (suc (suc k)) rest
Holds-ended s rest b i k h e =
    Holds-frame rest b (ended b k) (suc (suc k)) (Holds-rear s rest b i k h e) λ j l. ground arith

pub NotAfterCr-ended : (b : Buffer) (k : ℕ) → NotAfterCr (ended b k) (suc (suc k))
NotAfterCr-ended b k = (nul, ground arith, ground arith)

pub parse_line-crlf :
    (s rest : Bytes) (b : Buffer) (i r : ℕ)
    → Holds b i (crlf s rest)
    → NotAfterCr b i
    → Clean s
    → i + length (crlf s rest) ≡ r
    → parse_line b i r ≡ some (line_ok, ended b (i + length s), suc (suc (i + length s)))
parse_line-crlf s rest b i r h k c e =
    parse_line-outcome (crlf s rest) b i r h k e
    ∙ ap (λ l. some (outcome b i l)) (line_end-crlf s rest c)
