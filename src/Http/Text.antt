-- ===== src/Http/Text.antt =====
-- Strings in a buffer, and what the C functions find in them.
use mathlib.Core.Path.{subst}
use my_linux_demo.Base.{
  ℕ, zero, suc, ◌+◌, ◌<◌, ◌≡◌, ◌≢◌, refl, true, false, some, [], ◌∷◌, ◌++◌, arith, ◌==◌, length,
  All,
}
use my_linux_demo.Http.{Buffer, put, nul}
use my_linux_demo.Http.CString.{Bytes, c_string, is_in, strpbrk}

-- The bytes `s`, none of them NUL, and a NUL behind them.
abbrev pub Text : Buffer → ℕ → Bytes → Type 0
Text b p [] = b p ≡ some nul
Text b p (c ∷ s) = (b p ≡ some c) × (c ≢ nul) × Text b (suc p) s

-- None of the bytes is in `set`.
abbrev pub Free : Bytes → Bytes → Type 0
Free set s = All (λ c. is_in c set ≡ false) s

pub c_string-Text :
    (size : ℕ) (b : Buffer) (p : ℕ) (s : Bytes)
    → Text b p s
    → length s < size
    → c_string size b p ≡ some s
unfolding c_string
c_string-Text zero b p s t f = absurd (omega arith)
c_string-Text (suc n) b p [] t f = ground arith
c_string-Text (suc n) b p (c ∷ s) t f =
    let nz : (c == nul) ≡ false = ground arith in
    let e : p + 1 ≡ suc p = omega arith in
    rw (t.0, nz, e, c_string-Text n b (suc p) s t.2 (omega arith)) refl

pub strpbrk-append :
    (m r set : Bytes) (c : ℕ)
    → Free set m
    → is_in c set ≡ true
    → strpbrk (m ++ c ∷ r) set ≡ some (length m)
unfolding strpbrk
strpbrk-append [] r set c f h = rw h refl
strpbrk-append (d ∷ m) r set c f h = rw (f.0, strpbrk-append m r set c f.1 h) refl

-- Overwriting the byte behind `m` ends a string there ...
pub Text-front :
    (m r : Bytes) (b : Buffer) (p q c : ℕ)
    → Text b p (m ++ c ∷ r)
    → q ≡ p + length m
    → Text (put b q nul) p m
Text-front [] r b p q c t e = ground arith
Text-front (d ∷ m) r b p q c t e =
    (ground arith, t.1, Text-front m r b (suc p) q c t.2 (omega arith))

-- ... and leaves what stands behind it as it is.
pub Text-behind : (s : Bytes) (b : Buffer) (p q : ℕ) → Text b p s → q < p → Text (put b q nul) p s
Text-behind [] b p q t l = ground arith
Text-behind (c ∷ s) b p q t l = (ground arith, t.1, Text-behind s b (suc p) q t.2 (omega arith))

pub Text-ahead :
    (s : Bytes) (b : Buffer) (p q : ℕ) → Text b p s → p + length s < q → Text (put b q nul) p s
Text-ahead [] b p q t l = ground arith
Text-ahead (c ∷ s) b p q t l = (ground arith, t.1, Text-ahead s b (suc p) q t.2 (omega arith))

pub Text-rear :
    (m r : Bytes) (b : Buffer) (p j c : ℕ)
    → Text b p (m ++ c ∷ r)
    → j ≡ p + length m + 1
    → Text b j r
Text-rear [] r b p j c t e = let z : suc p ≡ j = omega arith in subst (λ k. Text b k r) z t.2
Text-rear (d ∷ m) r b p j c t e = Text-rear m r b (suc p) j c t.2 (omega arith)

pub Text-at :
    (m r : Bytes) (b : Buffer) (p q c : ℕ) → Text b p (m ++ c ∷ r) → q ≡ p + length m → b q ≡ some c
Text-at [] r b p q c t e = let z : p ≡ q = omega arith in subst (λ k. b k ≡ some c) z t.0
Text-at (d ∷ m) r b p q c t e = Text-at m r b (suc p) q c t.2 (omega arith)
