-- ===== src/Http/Request.antt =====
-- `parse_requestline` and `parse_headers`. `size` is the size of the receive buffer.
use my_linux_demo.Base.{ℕ, ◌+◌, not, Option, none, some, List, [], ◌∷◌, ◌>>=◌, ◌==◌, if◌then◌else◌}
use my_linux_demo.Http.{
  CheckState, check_state_header, HttpCode, no_request, get_request, bad_request, Output,
  method_is_get, url_is, host_is, unknown_header, Buffer, peek, poke, nul,
}
use my_linux_demo.Http.CString.{
  Bytes, c_string, strpbrk, strspn, strchr, strcasecmp_eq, strncasecmp_eq,
}

-- " \t"
abbrev pub blanks : Bytes
blanks = b' ' ∷ b'\t' ∷ []

abbrev pub tab : Bytes
tab = b'\t' ∷ []

-- "GET"
abbrev pub get_method : Bytes
get_method = b'G' ∷ b'E' ∷ b'T' ∷ []

-- "HTTP/1.1"
abbrev pub http_version : Bytes
http_version = b'H' ∷ b'T' ∷ b'T' ∷ b'P' ∷ b'/' ∷ b'1' ∷ b'.' ∷ b'1' ∷ []

-- "Host:"
abbrev pub host_prefix : Bytes
host_prefix = b'H' ∷ b'o' ∷ b's' ∷ b't' ∷ b':' ∷ []

-- What the analysis of a request line returns and changes, with what it prints.
abbrev pub Analysed : Type 0
Analysed = HttpCode × Buffer × CheckState × List Output

-- `if(!url || url[0] != '/')` and what follows it.
unfoldable pub accept_url : ℕ → Buffer → CheckState → Option ℕ → Option Analysed
accept_url size b state none = some (bad_request, b, state, method_is_get ∷ [])
accept_url size b state (some url) = do
  c ← peek b url
  if not (c == b'/') then some (bad_request, b, state, method_is_get ∷ []) else do
    u ← c_string size b url
    some (no_request, b, check_state_header, method_is_get ∷ url_is u ∷ [])

-- The offset `url = strchr(url, '/')`, as a pointer.
unfoldable pub find_slash : ℕ → Buffer → ℕ → Option (Option ℕ)
find_slash size b url = do
  s ← c_string size b url
  some (elim (strchr s b'/') [ none ↦ none | some i ↦ some (url + i) ])

-- From `*version++ = '\0'` on.
unfoldable pub check_version : ℕ → Buffer → CheckState → (url version : ℕ) → Option Analysed
check_version size b state url version = do
  b ← poke b version nul
  v ← c_string size b (version + 1)
  v' ← c_string size b (version + 1 + strspn v blanks)
  if not (strcasecmp_eq v' http_version)
      then (do found ← find_slash size b (url + 7); accept_url size b state found)
      else accept_url size b state (some url)

-- `if(!version) return BAD_REQUEST;`, with the offset of `version` from `url`.
unfoldable pub version_at : ℕ → Buffer → CheckState → (url : ℕ) → Option ℕ → Option Analysed
version_at size b state url none = some (bad_request, b, state, method_is_get ∷ [])
version_at size b state url (some j) = check_version size b state url (url + j)

-- From `url += strspn(url, "\t")` on.
unfoldable pub split_url : ℕ → Buffer → CheckState → (url : ℕ) → Option Analysed
split_url size b state url = do
  u ← c_string size b url
  let url' = url + strspn u tab
  u' ← c_string size b url'
  version_at size b state url' (strpbrk u' blanks)

-- From `*url++ = '\0'` on.
unfoldable pub check_method : ℕ → Buffer → CheckState → (temp url : ℕ) → Option Analysed
check_method size b state temp url = do
  b ← poke b url nul
  method ← c_string size b temp
  if strcasecmp_eq method get_method
      then split_url size b state (url + 1)
      else some (bad_request, b, state, [])

-- `if(!url) return BAD_REQUEST;`, with the offset of `url` from `temp`.
unfoldable pub url_at : ℕ → Buffer → CheckState → (temp : ℕ) → Option ℕ → Option Analysed
url_at size b state temp none = some (bad_request, b, state, [])
url_at size b state temp (some i) = check_method size b state temp (temp + i)

unfoldable pub parse_requestline : ℕ → Buffer → (temp : ℕ) → CheckState → Option Analysed
parse_requestline size b temp state = do
  s ← c_string size b temp
  url_at size b state temp (strpbrk s blanks)

unfoldable pub print_host : ℕ → Buffer → (temp : ℕ) → Option (HttpCode × List Output)
print_host size b temp = do
  s ← c_string size b temp
  host ← c_string size b (temp + strspn s blanks)
  some (no_request, host_is host ∷ [])

unfoldable pub parse_headers : ℕ → Buffer → (temp : ℕ) → Option (HttpCode × List Output)
parse_headers size b temp = do
  c ← peek b temp
  if c == nul then some (get_request, []) else do
    s ← c_string size b temp
    if strncasecmp_eq s host_prefix 5
        then print_host size b (temp + 5)
        else some (no_request, unknown_header ∷ [])
