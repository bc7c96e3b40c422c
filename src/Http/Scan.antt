-- ===== src/Http/Scan.antt =====
-- `parse_line` against a description of where a line ends in a sequence of bytes.
use my_linux_demo.Base.{
  ℕ, zero, suc, ◌+◌, ◌-◌, ◌<◌, ◌≡◌, ◌≢◌, refl, ap, ◌∙◌, inl, inr, true, false, Option, some, [],
  ◌∷◌, arith, ◌==◌, if◌then◌else◌, ==-ne, Bool-cases, length,
}
use my_linux_demo.Http.{
  LineStatus, line_ok, line_bad, line_open, cr, lf, nul, Buffer, put, at_cr, after_cr, at_lf,
  line_loop, parse_line,
}
use my_linux_demo.Http.CString.{Bytes}

-- Where the analysis of some bytes stops: at the offset of a CR LF, of a stray CR or LF, or of a
-- CR at the very end or the end itself, where more bytes are needed.
pub data LineEnd : Type 0 where
  complete broken unfinished : ℕ → LineEnd

abbrev pub later : LineEnd → LineEnd
later (complete n) = complete (suc n)
later (broken n) = broken (suc n)
later (unfinished n) = unfinished (suc n)

unfoldable pub line_end : Bytes → LineEnd
line_end [] = unfinished 0
line_end (c ∷ []) = if c == cr then unfinished 0 else if c == lf then broken 0 else unfinished 1
line_end (c ∷ d ∷ s) =
    if c == cr
    then if d == lf then complete 0 else broken 0
    else if c == lf
    then broken 0
    else later (line_end (d ∷ s))

-- The bytes stand in the buffer from `i` on.
abbrev pub Holds : Buffer → ℕ → Bytes → Type 0
Holds b i [] = Unit
Holds b i (c ∷ s) = (b i ≡ some c) × Holds b (suc i) s

-- No carriage return stands in front of `i`.
abbrev pub NotAfterCr : Buffer → ℕ → Type 0
NotAfterCr b zero = Unit
NotAfterCr b (suc i) = (c : ℕ) × (b i ≡ some c) × (c ≢ cr)

-- What `parse_line` returns for a line that ends there, from `checked` on.
abbrev pub outcome : Buffer → (checked : ℕ) → LineEnd → LineStatus × Buffer × ℕ
outcome b i (complete n) = (line_ok, put (put b (i + n) nul) (suc (i + n)) nul, suc (suc (i + n)))
outcome b i (broken n) = (line_bad, b, i + n)
outcome b i (unfinished n) = (line_open, b, i + n)

at_lf-broken : (b : Buffer) (i : ℕ) → NotAfterCr b i → at_lf b i ≡ some (line_bad, b, i)
unfolding at_lf after_cr
at_lf-broken b zero h = refl
at_lf-broken b (suc i) h = ground arith

pub outcome-later : (b : Buffer) (i : ℕ) (e : LineEnd) → outcome b (suc i) e ≡ outcome b i (later e)
outcome-later b i (complete n) =
    let e : suc i + n ≡ i + suc n = omega arith in
    ap
      (λ (k : ℕ).
        let r : LineStatus × Buffer × ℕ = (line_ok, put (put b k nul) (suc k) nul, suc (suc k)) in
        r)
      e
outcome-later b i (broken n) =
    let e : suc i + n ≡ i + suc n = omega arith in
    ap (λ (k : ℕ). let r : LineStatus × Buffer × ℕ = (line_bad, b, k) in r) e
outcome-later b i (unfinished n) =
    let e : suc i + n ≡ i + suc n = omega arith in
    ap (λ (k : ℕ). let r : LineStatus × Buffer × ℕ = (line_open, b, k) in r) e

abbrev answer_of : LineStatus → Buffer → ℕ → Option (LineStatus × Buffer × ℕ)
answer_of st b i = some (st, b, i)

abbrev done_at : Buffer → ℕ → Option (LineStatus × Buffer × ℕ)
done_at b i = some (line_ok, put (put b i nul) (suc i) nul, suc (suc i))

-- The first bytes of the buffer do not end a line.
loop-skip :
    (n : ℕ) (b : Buffer) (i r c : ℕ)
    → b i ≡ some c
    → (c == cr) ≡ false
    → (c == lf) ≡ false
    → line_loop (suc n) b i r ≡ line_loop n b (suc i) r
unfolding line_loop
loop-skip n b i r c h p q = let e : i + 1 ≡ suc i = omega arith in rw (h, p, q, e) refl

loop-lf :
    (n : ℕ) (b : Buffer) (i r c : ℕ)
    → NotAfterCr b i
    → b i ≡ some c
    → (c == cr) ≡ false
    → (c == lf) ≡ true
    → line_loop (suc n) b i r ≡ some (line_bad, b, i)
unfolding line_loop
loop-lf n b i r c h k p q = rw (k, p, q) (at_lf-broken b i h)

loop-cr :
    (n : ℕ) (b : Buffer) (i r c : ℕ)
    → b i ≡ some c
    → (c == cr) ≡ true
    → line_loop (suc n) b i r ≡ at_cr b i r
unfolding line_loop
loop-cr n b i r c k p = rw (k, p) refl

at_cr-end : (b : Buffer) (i r : ℕ) → suc i ≡ r → at_cr b i r ≡ some (line_open, b, i)
unfolding at_cr
at_cr-end b i r e = ground arith

at_cr-next :
    (b : Buffer) (i r c d : ℕ)
    → suc i < r
    → b i ≡ some c
    → b (suc i) ≡ some d
    → at_cr b i r
      ≡ some (
          if d == lf
          then (line_ok, put (put b i nul) (suc i) nul, suc (suc i))
          else (line_bad, b, i))
unfolding at_cr
at_cr-next b i r c d l h k =
    let more : (i + 1 == r) ≡ false = ground arith in
    let e : i + 1 ≡ suc i = omega arith in
    let two : i + 2 ≡ suc (suc i) = omega arith in
    let apart : (suc i == i) ≡ false = ground arith in
    rw (more, e, k, h, two, apart, k) (ground arith)

-- The outcomes at the offset 0.
at_zero : (st : LineStatus) (b : Buffer) (i : ℕ) → answer_of st b i ≡ answer_of st b (i + 0)
at_zero st b i = let e : i ≡ i + 0 = omega arith in ap (answer_of st b) e

ok_at_zero : (b : Buffer) (i : ℕ) → done_at b i ≡ some (outcome b i (complete 0))
ok_at_zero b i = let e : i ≡ i + 0 = omega arith in ap (done_at b) e

line_loop-outcome :
    (s : Bytes) (b : Buffer) (i r : ℕ)
    → Holds b i s
    → NotAfterCr b i
    → i + length s ≡ r
    → line_loop (length s) b i r ≡ some (outcome b i (line_end s))
line_loop-outcome [] b i r h k e = unfold line_loop line_end in at_zero line_open b i
line_loop-outcome (c ∷ []) b i r h k e = elim (Bool-cases (c == cr)) [
  | inl p ↦
      loop-cr 0 b i r c h.0 p
      ∙ at_cr-end b i r (omega arith)
      ∙ unfold line_end in rw p (at_zero line_open b i)
  | inr p ↦ elim (Bool-cases (c == lf)) [
    | inl q ↦ loop-lf 0 b i r c k h.0 p q ∙ unfold line_end in rw (p, q) (at_zero line_bad b i)
    | inr q ↦
        loop-skip 0 b i r c h.0 p q
        ∙ unfold line_loop line_end in
          rw (p, q) (let one : suc i ≡ i + 1 = omega arith in ap (answer_of line_open b) one)
  ]
]
line_loop-outcome (c ∷ d ∷ s) b i r h k e = elim (Bool-cases (c == cr)) [
  | inl p ↦
      loop-cr (suc (length s)) b i r c h.0 p
      ∙ at_cr-next b i r c d (omega arith) h.0 h.1.0
      ∙ elim (Bool-cases (d == lf)) [
        | inl q ↦ unfold line_end in rw (p, q) (ok_at_zero b i)
        | inr q ↦ unfold line_end in rw (p, q) (at_zero line_bad b i)
      ]
  | inr p ↦ elim (Bool-cases (c == lf)) [
    | inl q ↦
        loop-lf (suc (length s)) b i r c k h.0 p q
        ∙ unfold line_end in rw (p, q) (at_zero line_bad b i)
    | inr q ↦
        loop-skip (suc (length s)) b i r c h.0 p q
        ∙ line_loop-outcome (d ∷ s) b (suc i) r h.1 (c, h.0, ==-ne c cr p) (omega arith)
        ∙ ap some (outcome-later b i (line_end (d ∷ s)))
        ∙ unfold line_end in rw (p, q) refl
  ]
]

-- parse_line, started where no CR stands in front, returns on the bytes it is given exactly the
-- outcome that an independent description of the line end predicts: LINE_OK with CR LF overwritten
-- by NULs and checked_index behind them, LINE_BAD at a stray CR or LF, and LINE_OPEN at the end or
-- at a final CR.
pub parse_line-outcome :
    (s : Bytes) (b : Buffer) (checked read : ℕ)
    → Holds b checked s
    → NotAfterCr b checked
    → checked + length s ≡ read
    → parse_line b checked read ≡ some (outcome b checked (line_end s))
unfolding parse_line
parse_line-outcome s b checked read h k e =
    let n : read - checked ≡ length s = omega arith in
    rw n (line_loop-outcome s b checked read h k e)
