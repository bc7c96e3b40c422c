-- ===== src/Http/CString.antt =====
-- The functions of <string.h> and <strings.h> that the parser calls, on the bytes of a string.
use my_linux_demo.Base.{
  ℕ, zero, suc, ◌+◌, Bool, true, false, ◌&&◌, ◌||◌, Option, none, some, List, [], ◌∷◌, ◌>>=◌, leb,
  ◌==◌, if◌then◌else◌,
}
use my_linux_demo.Http.{Buffer, peek, nul}

abbrev pub Bytes : Type 0
Bytes = List ℕ

-- The bytes of the string at `p`, up to its NUL. A string that has none within the array, or
-- within `size` bytes, is a fault.
unfoldable pub c_string : (size : ℕ) → Buffer → ℕ → Option Bytes
c_string zero b p = none
c_string (suc n) b p = do
  c ← peek b p
  let rest = (do s ← c_string n b (p + 1); some (c ∷ s))
  if c == nul then some [] else rest

unfoldable pub is_in : ℕ → Bytes → Bool
is_in c [] = false
is_in c (d ∷ ds) = c == d || is_in c ds

-- The offset of the first byte that is one of `set`.
unfoldable pub strpbrk : Bytes → (set : Bytes) → Option ℕ
unfolding is_in
strpbrk [] set = none
strpbrk (c ∷ s) set =
    let rest = (do i ← strpbrk s set; some (suc i)) in if is_in c set then some 0 else rest

-- The number of bytes at the front that are in `set`.
unfoldable pub strspn : Bytes → (set : Bytes) → ℕ
unfolding is_in
strspn [] set = 0
strspn (c ∷ s) set = if is_in c set then suc (strspn s set) else 0

-- The offset of the first `c`.
unfoldable pub strchr : Bytes → ℕ → Option ℕ
strchr [] c = none
strchr (d ∷ s) c = let rest = (do i ← strchr s c; some (suc i)) in if d == c then some 0 else rest

-- `tolower`, in the C locale
unfoldable pub to_lower : ℕ → ℕ
to_lower c = if leb b'A' c && leb c b'Z' then c + 32 else c

-- `strcasecmp(s, t) == 0`
unfoldable pub strcasecmp_eq : Bytes → Bytes → Bool
unfolding to_lower
strcasecmp_eq [] [] = true
strcasecmp_eq [] (d ∷ t) = false
strcasecmp_eq (c ∷ s) [] = false
strcasecmp_eq (c ∷ s) (d ∷ t) = to_lower c == to_lower d && strcasecmp_eq s t

-- `strncasecmp(s, t, n) == 0`
unfoldable pub strncasecmp_eq : Bytes → Bytes → ℕ → Bool
unfolding to_lower
strncasecmp_eq s t zero = true
strncasecmp_eq [] [] (suc n) = true
strncasecmp_eq [] (d ∷ t) (suc n) = false
strncasecmp_eq (c ∷ s) [] (suc n) = false
strncasecmp_eq (c ∷ s) (d ∷ t) (suc n) = to_lower c == to_lower d && strncasecmp_eq s t n
