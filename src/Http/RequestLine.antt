-- ===== src/Http/RequestLine.antt =====
-- `parse_requestline` on a well-formed request line.

use my_linux_demo.Base.{
  ℕ, suc, ◌+◌, ◌<◌, ◌≤◌, ◌≡◌, refl, ◌∙◌, true, some, [], ◌∷◌, ◌++◌, arith, length, length-append,
  Returns, Returns-then,
}
use my_linux_demo.Http.{
  Buffer, put, nul, CheckState, check_state_header, no_request, method_is_get, url_is,
}
use my_linux_demo.Http.CString.{Bytes, is_in, strspn, strcasecmp_eq}
use my_linux_demo.Http.Request.{
  blanks, tab, get_method, http_version, Analysed, accept_url, check_version, version_at, url_at,
  split_url, check_method, parse_requestline,
}
use my_linux_demo.Http.Text.{
  Text, Free, c_string-Text, strpbrk-append, Text-front, Text-behind, Text-rear, Text-at,
}

-- A version that the parser takes for "HTTP/1.1" does not start with a blank.
version_blanks : (v : Bytes) → strcasecmp_eq v http_version ≡ true → strspn v blanks ≡ 0
unfolding strcasecmp_eq strspn
version_blanks [] h = refl
version_blanks (c ∷ v) h = ground arith

-- What an accepted request line leads to: the target is printed, and no byte from `limit` on is
-- written.
abbrev pub Accepted : Buffer → ℕ → Bytes → Analysed → Type 0
Accepted b limit u (code, b', state, out) =
    (code ≡ no_request)
    × (state ≡ check_state_header)
    × (out ≡ method_is_get ∷ url_is u ∷ [])
    × ((j : ℕ) → limit ≤ j → b' j ≡ b j)

Accepted-put :
    (b : Buffer) (q limit : ℕ) (u : Bytes) (r : Analysed)
    → q < limit
    → Accepted (put b q nul) limit u r
    → Accepted b limit u r
Accepted-put b q limit u r l (c, s, o, f) = (c, s, o, λ j h. f j h ∙ ground arith)

accept_url-Accepted :
    (size : ℕ) (state : CheckState) (b : Buffer) (url limit : ℕ) (u : Bytes)
    → Text b url (b'/' ∷ u)
    → suc (length u) < size
    → Returns (λ r. Accepted b limit (b'/' ∷ u) r) (accept_url size b state (some url))
unfolding accept_url
accept_url-Accepted size state b url limit u t f =
    rw (t.0, c_string-Text size b url (b'/' ∷ u) t f) (refl, refl, refl, λ j h. refl)

-- The target `/u`, the separator `sp` and the version `v`.
module _ (size : ℕ) (state : CheckState) (limit : ℕ) (u v : Bytes) (sp : ℕ)
    (fits : length u + length v + 2 < size) (version : strcasecmp_eq v http_version ≡ true)
    (free : Free blanks (b'/' ∷ u)) (blank : is_in sp blanks ≡ true) where
  check_version-Accepted :
      (b : Buffer) (url end : ℕ)
      → Text b url (b'/' ∷ (u ++ sp ∷ v))
      → end ≡ url + suc (length u)
      → end < limit
      → Returns (λ r. Accepted b limit (b'/' ∷ u) r) (check_version size b state url end)
  unfolding check_version
  check_version-Accepted b url end t e l =
      let held : b end ≡ some sp = Text-at (b'/' ∷ u) v b url end sp t e in
      let b' = put b end nul in
      let tail : Text b' (end + 1) v =
        Text-behind v b (end + 1) end (Text-rear (b'/' ∷ u) v b url (end + 1) sp t (omega arith))
          (omega arith) in
      let read = c_string-Text size b' (end + 1) v tail (omega arith) in
      let z : end + 1 + 0 ≡ end + 1 = omega arith in
      rw (held, read, version_blanks v version, z, read, version)
        (Returns-then _ (λ r. Accepted b limit (b'/' ∷ u) r) _
          (accept_url-Accepted size state b' url limit u (Text-front (b'/' ∷ u) v b url end sp t e)
            (omega arith))
          λ r h. Accepted-put b end limit (b'/' ∷ u) r l h)

  split_url-Accepted :
      (b : Buffer) (url : ℕ)
      → Text b url (b'/' ∷ (u ++ sp ∷ v))
      → url + suc (length u) < limit
      → Returns (λ r. Accepted b limit (b'/' ∷ u) r) (split_url size b state url)
  unfolding split_url version_at
  split_url-Accepted b url t l =
      let read =
        c_string-Text size b url (b'/' ∷ (u ++ sp ∷ v)) t
          (omega (arith, length-append {0} u (sp ∷ v))) in
      let z : url + 0 ≡ url = omega arith in
      let none_skipped : strspn (b'/' ∷ (u ++ sp ∷ v)) tab ≡ 0 = unfold strspn in refl in
      rw (read, none_skipped, z, read, strpbrk-append (b'/' ∷ u) v blanks sp free blank)
        (check_version-Accepted b url (url + suc (length u)) t refl l)

-- A request line: a method that is GET in any case, a blank, a target that starts with a slash
-- and holds no blank, a blank, and a version that is HTTP/1.1 in any case.
pub record RequestLine : Type 0 where
  pub method : Bytes
  pub target : Bytes
  pub version : Bytes
  pub sp : ℕ
  pub sp' : ℕ

abbrev pub line_of : RequestLine → Bytes
line_of l = l.method ++ (l.sp ∷ b'/' ∷ (l.target ++ l.sp' ∷ l.version))

pub record IsGet (l : RequestLine) : Type 0 where
  pub get : strcasecmp_eq l.method get_method ≡ true
  pub method_free : Free blanks l.method
  pub sp_blank : is_in l.sp blanks ≡ true
  pub target_free : Free blanks (b'/' ∷ l.target)
  pub sp'_blank : is_in l.sp' blanks ≡ true
  pub version_is : strcasecmp_eq l.version http_version ≡ true

-- parse_requestline accepts every NUL-terminated request line, shorter than the buffer, of a
-- method that is GET in any case, a blank, a target that starts with a slash and has no blank, a
-- blank, and a version that is HTTP/1.1 in any case: it goes on to the headers, reports the
-- target, and changes no byte at or behind the end of the line.
pub parse_requestline-Accepted :
    (size temp : ℕ) (b : Buffer) (state : CheckState) (l : RequestLine)
    → Text b temp (line_of l)
    → length (line_of l) < size
    → IsGet l
    → Returns
        (λ r. Accepted b (temp + length (line_of l)) (b'/' ∷ l.target) r)
        (parse_requestline size b temp state)
unfolding parse_requestline url_at check_method
parse_requestline-Accepted size temp b state l t f ok =
    let rest = b'/' ∷ (l.target ++ l.sp' ∷ l.version) in
    let url = temp + length l.method in
    let limit = temp + length (line_of l) in
    let len = length-append {0} l.method (l.sp ∷ rest) in
    let len' = length-append {0} l.target (l.sp' ∷ l.version) in
    let read = c_string-Text size b temp (line_of l) t f in
    let held : b url ≡ some l.sp = Text-at l.method rest b temp url l.sp t refl in
    let b' = put b url nul in
    let method =
      c_string-Text size b' temp l.method (Text-front l.method rest b temp url l.sp t refl)
        (omega arith) in
    let tail =
      Text-behind rest b (url + 1) url (Text-rear l.method rest b temp (url + 1) l.sp t refl)
        (omega arith) in
    rw
      (
        read,
        strpbrk-append l.method rest blanks l.sp ok.method_free ok.sp_blank,
        held,
        method,
        ok.get,
      )
      (Returns-then _ (λ r. Accepted b limit (b'/' ∷ l.target) r) _
        (split_url-Accepted size state limit l.target l.version l.sp' (omega arith) ok.version_is
          ok.target_free ok.sp'_blank b' (url + 1) tail (omega arith))
        λ r h. Accepted-put b url limit (b'/' ∷ l.target) r (omega arith) h)
