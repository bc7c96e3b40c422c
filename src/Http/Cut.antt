-- ===== src/Http/Cut.antt =====
-- The first part of a request, cut anywhere: it has a whole line, or the line is unfinished.
use mathlib.Core.Path.{subst}
use my_linux_demo.Base.{
  ℕ, suc, ◌≡◌, ◌⊎◌, refl, ap, ◌∙◌, inl, inr, false, [], ◌∷◌, ◌++◌, arith, ◌==◌,
}
use my_linux_demo.Http.{cr, lf}
use my_linux_demo.Http.CString.{Bytes}
use my_linux_demo.Http.Scan.{unfinished, later, line_end}
use my_linux_demo.Http.Resume.{line_end-cons}
use my_linux_demo.Http.Lines.{Clean, crlf}

-- The bytes `s`, with `q` still to come, are cut from the line `h` and what follows it.
abbrev pub IsCut : (h rest s q : Bytes) → Type 0
IsCut h rest s q =
    ((t : Bytes) × (s ≡ crlf h t) × (t ++ q ≡ rest)) ⊎ ((n : ℕ) × (line_end s ≡ unfinished n))

IsCut-empty : (rest s q : Bytes) → s ++ q ≡ crlf [] rest → IsCut [] rest s q
unfolding line_end
IsCut-empty rest [] q e = inr (0, refl)
IsCut-empty rest (c ∷ []) q e =
    let first : c ≡ cr = ground (arith, e) in inr (0, ground (arith, first))
IsCut-empty rest (c ∷ d ∷ t) q e = inl (t, ground (arith, e), ground (arith, e))

IsCut-cons :
    (x : ℕ) (h rest s q : Bytes)
    → (x == cr) ≡ false
    → (x == lf) ≡ false
    → IsCut h rest s q
    → IsCut (x ∷ h) rest (x ∷ s) q
IsCut-cons x h rest s q p l (inl (t, e, f)) = inl (t, ap (λ (u : Bytes). x ∷ u) e, f)
IsCut-cons x h rest s q p l (inr (n, e)) = inr (suc n, line_end-cons x s p l ∙ ap later e)

pub crlf-IsCut : (h rest s q : Bytes) → Clean h → s ++ q ≡ crlf h rest → IsCut h rest s q
crlf-IsCut [] rest s q cl e = IsCut-empty rest s q e
crlf-IsCut (x ∷ h) rest [] q cl e = inr (0, unfold line_end in refl)
crlf-IsCut (x ∷ h) rest (y ∷ s) q cl e =
    let same : x ≡ y = ground (arith, e) in
    let tail : s ++ q ≡ crlf h rest = ground (arith, e) in
    subst (λ z. IsCut (x ∷ h) rest (z ∷ s) q) same
      (IsCut-cons x h rest s q cl.0.1 cl.0.2 (crlf-IsCut h rest s q cl.1 tail))
