-- ===== src/Http.antt =====
-- The HTTP request parser of unp/high_performance/http_parse.cpp: its enumerations, the receive
-- buffer, and the sub state machine `parse_line`.
pub mod CString
pub mod Request
pub mod Content
pub mod Scan
pub mod Resume
pub mod Text
pub mod RequestLine
pub mod Headers
pub mod Lines
pub mod Whole
pub mod Cut
pub mod Pieces
pub mod Arrival
pub mod Server
pub mod Delivery
pub mod Tests
use my_linux_demo.Base.{
  ℕ, zero, suc, ◌+◌, ◌-◌, Bool, true, false, Option, none, some, List, ◌>>=◌, ltb, ◌==◌,
  if◌then◌else◌,
}

-- CHECK_STATE
pub data CheckState : Type 0 where
  check_state_requestline check_state_header : CheckState

-- LINE_STATUS
pub data LineStatus : Type 0 where
  line_ok line_bad line_open : LineStatus

-- HTTP_CODE
pub data HttpCode : Type 0 where
  no_request get_request bad_request forbidden_request internal_error closed_connection : HttpCode

-- What `printf` reports of a request.
pub data Output : Type 0 where
  method_is_get : Output
  url_is : List ℕ → Output
  host_is : List ℕ → Output
  unknown_header : Output

abbrev pub cr : ℕ
cr = 13

abbrev pub lf : ℕ
lf = 10

abbrev pub nul : ℕ
nul = 0

-- A `char` array by its indices; `none` is an index out of its bounds.
abbrev pub Buffer : Type 0
Buffer = ℕ → Option ℕ

abbrev pub peek : Buffer → ℕ → Option ℕ
peek b i = b i

abbrev pub put : Buffer → ℕ → ℕ → Buffer
put b i c j = if j == i then some c else b j

-- A write out of bounds is a fault.
abbrev pub poke : Buffer → ℕ → ℕ → Option Buffer
poke b i c = do _ ← b i; some (put b i c)

-- At a carriage return in `parse_line`.
unfoldable pub at_cr : Buffer → (checked_index read_index : ℕ) → Option (LineStatus × Buffer × ℕ)
at_cr b checked read = if checked + 1 == read then some (line_open, b, checked) else do
  next ← peek b (checked + 1)
  if next == lf
      then (do b ← poke b checked nul; b ← poke b (checked + 1) nul; some (line_ok, b, checked + 2))
      else some (line_bad, b, checked)

-- At a line feed, with the byte `prev` in front of it.
unfoldable pub after_cr : Buffer → (checked_index : ℕ) → Option (LineStatus × Buffer × ℕ)
after_cr b checked = do
  prev ← peek b (checked - 1)
  if prev == cr
      then (do b ← poke b (checked - 1) nul; b ← poke b checked nul; some (line_ok, b, checked + 1))
      else some (line_bad, b, checked)

-- At a line feed in `parse_line`.
unfoldable pub at_lf : Buffer → (checked_index : ℕ) → Option (LineStatus × Buffer × ℕ)
at_lf b checked = if ltb 1 checked then after_cr b checked else some (line_bad, b, checked)

-- The loop of `parse_line`, with the rounds that are left.
unfoldable pub line_loop :
    ℕ → Buffer → (checked_index read_index : ℕ) → Option (LineStatus × Buffer × ℕ)
line_loop zero b checked read = some (line_open, b, checked)
line_loop (suc rounds) b checked read = do
  temp ← peek b checked
  let rest = line_loop rounds b (checked + 1) read
  if temp == cr then at_cr b checked read else if temp == lf then at_lf b checked else rest

-- The status of the next line, the buffer with the line's end overwritten, and `checked_index`.
unfoldable pub parse_line :
    Buffer → (checked_index read_index : ℕ) → Option (LineStatus × Buffer × ℕ)
parse_line b checked read = line_loop (read - checked) b checked read
