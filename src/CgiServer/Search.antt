-- ===== src/CgiServer/Search.antt =====
-- The search for CR LF against a description on byte sequences.
use mathlib.Core.Path.{subst}
use my_linux_demo.Base.{
  ℕ, zero, suc, ◌+◌, ◌<◌, ◌≤◌, ◌≡◌, ◌≢◌, refl, ap, ◌∙◌, ◌&&◌, some, [], ◌∷◌, ◌++◌, arith, ◌==◌,
  if◌then◌else◌, length, All,
}
use my_linux_demo.Http.{Buffer, put, cr, lf, nul}
use my_linux_demo.Http.CString.{Bytes}
use my_linux_demo.Http.Scan.{Holds}
use my_linux_demo.Http.Text.{Text}
use my_linux_demo.CgiServer.{search}

-- Where the first LF behind a CR stands, with the byte `v` in front; the length, if there is none.
unfoldable pub end_at : ℕ → Bytes → ℕ
end_at v [] = 0
end_at v (c ∷ s) = if v == cr && c == lf then 0 else suc (end_at c s)

abbrev pub last_of : ℕ → Bytes → ℕ
last_of v [] = v
last_of v (c ∷ s) = last_of c s

pub end_at-le : (v : ℕ) (s : Bytes) → end_at v s ≤ length s
unfolding end_at
end_at-le v [] = omega arith
end_at-le v (c ∷ s) = ground (arith, end_at-le c s)

pub end_at-append :
    (v : ℕ) (p s : Bytes)
    → end_at v p ≡ length p
    → end_at v (p ++ s) ≡ length p + end_at (last_of v p) s
unfolding end_at
end_at-append v [] s e = omega arith
end_at-append v (c ∷ p) s e = ground (arith, end_at-append c p s)

pub end_at-found : (v : ℕ) (p s : Bytes) → end_at v p < length p → end_at v (p ++ s) ≡ end_at v p
unfolding end_at
end_at-found v [] s l = absurd (omega arith)
end_at-found v (c ∷ p) s l = ground (arith, end_at-found c p s)

last_of-snoc : (v c : ℕ) (p : Bytes) → last_of v (p ++ c ∷ []) ≡ c
last_of-snoc v c [] = refl
last_of-snoc v c (d ∷ p) = last_of-snoc d c p

pub end_at-crlf :
    (v : ℕ) (line rest : Bytes)
    → end_at v line ≡ length line
    → end_at v (line ++ (cr ∷ lf ∷ rest)) ≡ suc (length line)
unfolding end_at
end_at-crlf v line rest e = end_at-append v line (cr ∷ lf ∷ rest) e ∙ ground arith

-- The byte in front of `i`; none stands in front of the buffer.
abbrev pub IsPrev : Buffer → ℕ → ℕ → Type 0
IsPrev b zero v = v ≡ nul
IsPrev b (suc i) v = b i ≡ some v

pub search-end_at :
    (s : Bytes) (b : Buffer) (i v : ℕ)
    → Holds b i s
    → IsPrev b i v
    → search (length s) b i ≡ some (i + end_at v s)
unfolding search end_at
search-end_at [] b i v h p = ap (λ (k : ℕ). some k) (omega arith)
search-end_at (c ∷ s) b zero v h p = let r = search-end_at s b 1 c h.1 h.0 in ground (arith, h.0, r)
search-end_at (c ∷ s) b (suc i) v h p =
    let r = search-end_at s b (suc (suc i)) c h.1 h.0 in ground (arith, h.0, p, r)

-- The byte in front of what comes next.
pub Holds-IsPrev :
    (p : Bytes) (b : Buffer) (i v : ℕ)
    → IsPrev b i v
    → Holds b i p
    → IsPrev b (i + length p) (last_of v p)
Holds-IsPrev [] b i v k h = subst (λ j. IsPrev b j v) (omega arith) k
Holds-IsPrev (c ∷ p) b i v k h =
    subst (λ j. IsPrev b j (last_of c p)) (omega arith) (Holds-IsPrev p b (suc i) c h.0 h.1)

pub Holds-prefix :
    (q r line w : Bytes) (b : Buffer) (i : ℕ)
    → Holds b i q
    → q ++ r ≡ line ++ w
    → length line ≤ length q
    → Holds b i line
Holds-prefix q r [] w b i h e l = tt
Holds-prefix [] r (d ∷ line) w b i h e l = absurd (omega arith)
Holds-prefix (c ∷ q) r (d ∷ line) w b i h e l =
    (h.0 ∙ (cc), Holds-prefix q r line w b (suc i) h.1 (cc) (omega arith))

-- A NUL behind the line makes it a string.
pub Holds-Text :
    (line : Bytes) (b : Buffer) (i k : ℕ)
    → Holds b i line
    → All (λ c. c ≢ nul) line
    → k ≡ i + length line
    → Text (put b k nul) i line
Holds-Text [] b i k h n e = ground arith
Holds-Text (c ∷ line) b i k h n e =
    (ground (arith, h.0), n.0, Holds-Text line b (suc i) k h.1 n.1 (omega arith))
