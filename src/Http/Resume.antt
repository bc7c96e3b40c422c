-- ===== src/Http/Resume.antt =====
-- `parse_line` on a request that arrives in pieces.
use mathlib.Core.Path.{subst}
use my_linux_demo.Base.{
  ℕ, suc, ◌+◌, ◌≤◌, ◌<◌, ◌≡◌, refl, sym, ap, ◌∙◌, inl, inr, true, false, some, [], ◌∷◌, ◌++◌, arith,
  ◌==◌, ==-ne, Bool-cases, length, length-append,
}
use my_linux_demo.Http.{line_open, cr, lf, Buffer, parse_line}
use my_linux_demo.Http.CString.{Bytes}
use my_linux_demo.Http.Scan.{
  LineEnd, complete, broken, unfinished, later, line_end, Holds, NotAfterCr, outcome, outcome-later,
  parse_line-outcome,
}

pub line_end-cons :
    (c : ℕ) (t : Bytes)
    → (c == cr) ≡ false
    → (c == lf) ≡ false
    → line_end (c ∷ t) ≡ later (line_end t)
unfolding line_end
line_end-cons c [] p q = rw (p, q) refl
line_end-cons c (d ∷ t) p q = rw (p, q) refl

-- After `n` bytes of `s` the analysis can go on, on what is left of them and `rest`.
record Resumes (b : Buffer) (i n : ℕ) (s rest : Bytes) : Type 0 where
  left : Bytes
  same : outcome b (i + n) (line_end (left ++ rest)) ≡ outcome b i (line_end (s ++ rest))
  holds : Holds b (i + n) (left ++ rest)
  not_cr : NotAfterCr b (i + n)
  counts : n + length left ≡ length s

Resumes-at_once :
    (b : Buffer) (i : ℕ) (s rest : Bytes)
    → Holds b i (s ++ rest)
    → NotAfterCr b i
    → Resumes b i 0 s rest
Resumes-at_once b i s rest h k =
    let e : i ≡ i + 0 = omega arith in
    record {
      left = s;
      same = ap (λ (j : ℕ). outcome b j (line_end (s ++ rest))) (sym e);
      holds = subst (λ j. Holds b j (s ++ rest)) e h;
      not_cr = subst (λ j. NotAfterCr b j) e k;
      counts = omega arith;
    }

Resumes-cons :
    (b : Buffer) (i n c : ℕ) (s rest : Bytes)
    → (c == cr) ≡ false
    → (c == lf) ≡ false
    → Resumes b (suc i) n s rest
    → Resumes b i (suc n) (c ∷ s) rest
Resumes-cons b i n c s rest p q r =
    let e : suc i + n ≡ i + suc n = omega arith in
    record {
      left = r.left;
      same =
          ap (λ (j : ℕ). outcome b j (line_end (r.left ++ rest))) (sym e)
          ∙ r.same
          ∙ outcome-later b i (line_end (s ++ rest))
          ∙ ap (outcome b i) (sym (line_end-cons c (s ++ rest) p q));
      holds = subst (λ j. Holds b j (r.left ++ rest)) e r.holds;
      not_cr = subst (λ j. NotAfterCr b j) e r.not_cr;
      counts = omega (arith, r.counts);
    }

later_unfinished :
    (e : LineEnd) (n : ℕ) → later e ≡ unfinished n → (m : ℕ) × (e ≡ unfinished m) × (suc m ≡ n)
later_unfinished (complete m) n h = cc
later_unfinished (broken m) n h = cc
later_unfinished (unfinished m) n h = (m, refl, ground arith)

unfinished_cr :
    (c : ℕ) (s : Bytes) (n : ℕ) → (c == cr) ≡ true → line_end (c ∷ s) ≡ unfinished n → 0 ≡ n
unfolding line_end
unfinished_cr c [] n p e = ground arith
unfinished_cr c (d ∷ s) n p e = ground arith

unfinished_lf :
    (c : ℕ) (s : Bytes) (n : ℕ)
    → (c == cr) ≡ false
    → (c == lf) ≡ true
    → line_end (c ∷ s) ≡ unfinished n
    → ⊥
unfolding line_end
unfinished_lf c [] n p q e = ground arith
unfinished_lf c (d ∷ s) n p q e = ground arith

-- The offset at which an unfinished line is left.
resume :
    (s rest : Bytes) (b : Buffer) (i n : ℕ)
    → line_end s ≡ unfinished n
    → Holds b i (s ++ rest)
    → NotAfterCr b i
    → Resumes b i n s rest
resume [] rest b i n e h k =
    let z : 0 ≡ n = unfold line_end in ground arith in
    subst (λ m. Resumes b i m [] rest) z (Resumes-at_once b i [] rest h k)
resume (c ∷ s) rest b i n e h k = elim (Bool-cases (c == cr)) [
  | inl p ↦
      subst (λ m. Resumes b i m (c ∷ s) rest) (unfinished_cr c s n p e)
        (Resumes-at_once b i (c ∷ s) rest h k)
  | inr p ↦ elim (Bool-cases (c == lf)) [
    | inl q ↦ absurd (unfinished_lf c s n p q e)
    | inr q ↦
        let (m, e', z) = later_unfinished (line_end s) n (sym (line_end-cons c s p q) ∙ e) in
        subst (λ j. Resumes b i j (c ∷ s) rest) z
          (Resumes-cons b i m c s rest p q
            (resume s rest b (suc i) m e' h.1 (c, h.0, ==-ne c cr p)))
  ]
]

open_outcome :
    (b b' : Buffer) (i c : ℕ) (e : LineEnd)
    → some (outcome b i e) ≡ some (line_open, b', c)
    → (n : ℕ) × (e ≡ unfinished n) × (i + n ≡ c)
open_outcome b b' i c (complete n) h = cc
open_outcome b b' i c (broken n) h = cc
open_outcome b b' i c (unfinished n) h = (n, refl, ground arith)

Holds-front : (b : Buffer) (i : ℕ) (s rest : Bytes) → Holds b i (s ++ rest) → Holds b i s
Holds-front b i [] rest h = tt
Holds-front b i (c ∷ s) rest h = (h.0, Holds-front b (suc i) s rest h.1)

-- Bytes in the buffer, one behind the other, and when what is behind them changes.
pub Holds-append :
    (p s : Bytes) (b : Buffer) (i : ℕ) → Holds b i p → Holds b (i + length p) s → Holds b i (p ++ s)
Holds-append [] s b i h k = subst (λ j. Holds b j s) (omega arith) k
Holds-append (c ∷ p) s b i h k =
    (h.0, Holds-append p s b (suc i) h.1 (subst (λ j. Holds b j s) (omega arith) k))

pub Holds-kept :
    (p : Bytes) (b g : Buffer) (i n : ℕ)
    → Holds b i p
    → i + length p ≤ n
    → ((j : ℕ) → j < n → g j ≡ b j)
    → Holds g i p
Holds-kept [] b g i n h l f = tt
Holds-kept (c ∷ p) b g i n h l f =
    (f i (omega arith) ∙ h.0, Holds-kept p b g (suc i) n h.1 (omega arith) f)

-- The analysis of an unfinished line goes on as if it had been started with all the bytes.
pub parse_line-resumed :
    (s rest : Bytes) (b : Buffer) (i n : ℕ)
    → line_end s ≡ unfinished n
    → Holds b i (s ++ rest)
    → NotAfterCr b i
    → parse_line b (i + n) (i + length (s ++ rest)) ≡ some (outcome b i (line_end (s ++ rest)))
parse_line-resumed s rest b i n un h k =
    let r = resume s rest b i n un h k in
    parse_line-outcome (r.left ++ rest) b (i + n) (i + length (s ++ rest)) r.holds r.not_cr
      (omega (arith, r.counts, length-append {0} r.left rest, length-append {0} s rest))
    ∙ ap some r.same

-- When parse_line, started where no CR stands in front, finds the line open on a first part of the
-- bytes, calling it again from where it stopped, with more bytes, gives the same result as one
-- call on all the bytes.
pub parse_line-resume :
    (s rest : Bytes) (b b' : Buffer) (checked checked' : ℕ)
    → Holds b checked (s ++ rest)
    → NotAfterCr b checked
    → parse_line b checked (checked + length s) ≡ some (line_open, b', checked')
    → parse_line b checked' (checked + length (s ++ rest))
      ≡ parse_line b checked (checked + length (s ++ rest))
parse_line-resume s rest b b' checked checked' h k e =
    let first =
      sym (parse_line-outcome s b checked _ (Holds-front b checked s rest h) k refl) ∙ e in
    let (n, un, z) = open_outcome b b' checked checked' (line_end s) first in
    subst
      (λ c.
        parse_line b c (checked + length (s ++ rest))
        ≡ parse_line b checked (checked + length (s ++ rest)))
      z
      (parse_line-resumed s rest b checked n un h k
        ∙ sym (parse_line-outcome (s ++ rest) b checked _ h k refl))
