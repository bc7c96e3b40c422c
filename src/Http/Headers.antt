-- ===== src/Http/Headers.antt =====
-- `parse_headers` on every line.
use mathlib.Core.Path.{subst}
use my_linux_demo.Base.{
  ℕ, zero, suc, ◌+◌, ◌<◌, ◌≤◌, ◌≡◌, refl, true, false, inl, inr, some, List, [], ◌∷◌, arith, ◌==◌,
  if◌then◌else◌, Bool-cases, length,
}
use my_linux_demo.Http.{
  Buffer, nul, HttpCode, no_request, get_request, Output, host_is, unknown_header,
}
use my_linux_demo.Http.CString.{Bytes, is_in, strspn, strncasecmp_eq}
use my_linux_demo.Http.Request.{blanks, host_prefix, print_host, parse_headers}
use my_linux_demo.Http.Text.{Text, c_string-Text}

abbrev pub drop : ℕ → Bytes → Bytes
drop zero s = s
drop (suc n) [] = []
drop (suc n) (c ∷ s) = drop n s

-- The line without its leading blanks.
unfoldable pub trim : Bytes → Bytes
trim [] = []
trim (c ∷ s) = if is_in c blanks then trim s else c ∷ s

-- What a header line says.
unfoldable pub header_of : Bytes → HttpCode × List Output
header_of [] = (get_request, [])
header_of (c ∷ s) =
    if strncasecmp_eq (c ∷ s) host_prefix 5
    then (no_request, host_is (trim (drop 5 (c ∷ s))) ∷ [])
    else (no_request, unknown_header ∷ [])

drop-strspn : (s : Bytes) → drop (strspn s blanks) s ≡ trim s
unfolding trim strspn
drop-strspn [] = refl
drop-strspn (c ∷ s) = ground (arith, drop-strspn s)

strspn-le : (s set : Bytes) → strspn s set ≤ length s
unfolding strspn
strspn-le [] set = omega arith
strspn-le (c ∷ s) set = ground (arith, strspn-le s set)

prefix-le : (n : ℕ) (s t : Bytes) → strncasecmp_eq s t n ≡ true → n ≤ length t → n ≤ length s
unfolding strncasecmp_eq
prefix-le zero s t h l = omega arith
prefix-le (suc n) [] [] h l = l
prefix-le (suc n) [] (d ∷ t) h l = cc
prefix-le (suc n) (c ∷ s) [] h l = cc
prefix-le (suc n) (c ∷ s) (d ∷ t) h l = ground (arith, prefix-le n s t)

length-drop-le : (n : ℕ) (s : Bytes) → length (drop n s) ≤ length s
length-drop-le zero s = omega arith
length-drop-le (suc n) [] = omega arith
length-drop-le (suc n) (c ∷ s) = omega (arith, length-drop-le n s)

Text-drop :
    (n : ℕ) (b : Buffer) (p : ℕ) (s : Bytes) → Text b p s → n ≤ length s → Text b (p + n) (drop n s)
Text-drop zero b p s t l = let e : p ≡ p + 0 = omega arith in subst (λ q. Text b q s) e t
Text-drop (suc n) b p [] t l = absurd (omega arith)
Text-drop (suc n) b p (c ∷ s) t l =
    let e : suc p + n ≡ p + suc n = omega arith in
    subst (λ q. Text b q (drop n s)) e (Text-drop n b (suc p) s t.2 (omega arith))

print_host-trim :
    (size : ℕ) (b : Buffer) (p : ℕ) (s : Bytes)
    → Text b p s
    → length s < size
    → print_host size b p ≡ some (no_request, host_is (trim s) ∷ [])
unfolding print_host
print_host-trim size b p s t f =
    let n = strspn s blanks in
    let host =
      c_string-Text size b (p + n) (drop n s) (Text-drop n b p s t (strspn-le s blanks))
        (omega (arith, length-drop-le n s)) in
    rw (c_string-Text size b p s t f, host, drop-strspn s) refl

-- parse_headers on every NUL-terminated line shorter than the buffer: the empty line ends the
-- headers, a line that starts with "Host:" in any case reports the rest without its leading
-- blanks, and any other line is reported as unknown.
pub parse_headers-header_of :
    (size : ℕ) (b : Buffer) (temp : ℕ) (s : Bytes)
    → Text b temp s
    → length s < size
    → parse_headers size b temp ≡ some (header_of s)
unfolding parse_headers header_of
parse_headers-header_of size b temp [] t f = rw t refl
parse_headers-header_of size b temp (c ∷ s) t f =
    let nz : (c == nul) ≡ false = ground arith in
    let read = c_string-Text size b temp (c ∷ s) t f in
    rw (t.0, nz, read)
      (elim (Bool-cases (strncasecmp_eq (c ∷ s) host_prefix 5)) [
        | inl h ↦ rw h (
            print_host-trim size b (temp + 5) (drop 5 (c ∷ s))
              (Text-drop 5 b temp (c ∷ s) t (prefix-le 5 (c ∷ s) host_prefix h (omega arith)))
              (omega (arith, length-drop-le 5 (c ∷ s))))
        | inr h ↦ rw h refl
      ])
