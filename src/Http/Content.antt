-- ===== src/Http/Content.antt =====
-- `parse_content`, the main state machine.
use my_linux_demo.Base.{ℕ, zero, suc, Option, none, some, List, ◌++◌, ◌>>=◌}
use my_linux_demo.Http.{
  CheckState, check_state_requestline, check_state_header, line_ok, line_bad, line_open, HttpCode,
  no_request, get_request, bad_request, Output, Buffer, parse_line,
}
use my_linux_demo.Http.Request.{parse_requestline, parse_headers}

-- The variables that `parse_content` takes by reference, and what has been printed.
pub record Session : Type 0 where
  pub buffer : Buffer
  pub checked_index : ℕ
  pub checkstate : CheckState
  pub read_index : ℕ
  pub start_line : ℕ
  pub printed : List Output

-- What one turn of the switch decides: to return, or to look for the next line.
pub data Turn : Type 0 where
  leave : HttpCode → Session → Turn
  go_on : Session → Turn

-- `if(retcode == BAD_REQUEST) return BAD_REQUEST;`
unfoldable pub after_requestline : HttpCode → Session → Turn
after_requestline bad_request s = leave bad_request s
after_requestline _ s = go_on s

unfoldable pub after_headers : HttpCode → Session → Turn
after_headers bad_request s = leave bad_request s
after_headers get_request s = leave get_request s
after_headers _ s = go_on s

-- The switch on the state, for the line at `temp`.
unfoldable pub analyse : (size : ℕ) → Session → CheckState → (temp : ℕ) → Option Turn
unfolding after_requestline after_headers
analyse size s check_state_requestline temp = do
  (code, b, state, out) ← parse_requestline size s.buffer temp s.checkstate
  some (
      after_requestline code
        (record s { buffer = b; checkstate = state; printed = s.printed ++ out }))
analyse size s check_state_header temp = do
  (code, out) ← parse_headers size s.buffer temp
  some (after_headers code (record s { printed = s.printed ++ out }))

-- The loop of `parse_content`, with fuel.
unfoldable pub parse_content : (fuel size : ℕ) → Session → Option (HttpCode × Session)
parse_content zero size s = none
parse_content (suc fuel) size s = do
  (status, b, checked) ← parse_line s.buffer s.checked_index s.read_index
  let s' = record s { buffer = b; checked_index = checked; start_line = checked }
  let rest = (do
    turn ← analyse size s' s'.checkstate s.start_line
    elim turn [ leave code t ↦ some (code, t) | go_on t ↦ parse_content fuel size t ])
  elim status [
    | line_ok ↦ rest
    | line_open ↦ some (no_request, record s { buffer = b; checked_index = checked })
    | line_bad ↦ some (bad_request, record s { buffer = b; checked_index = checked })
  ]
