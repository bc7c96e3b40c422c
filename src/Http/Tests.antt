-- ===== src/Http/Tests.antt =====
-- Runs of the parser, and the theorems at the request "GET /a HTTP/1.1" with two headers.
use my_linux_demo.Base.{
  ◌+◌, ◌-◌, ◌≡◌, refl, some, List, [], ◌∷◌, ◌++◌, map, arith, length, Returns, get_elem?,
}
use my_linux_demo.Http.{
  Buffer, nul, cr, lf, check_state_requestline, line_bad, method_is_get, url_is, host_is,
  unknown_header, parse_line, line_loop, at_cr,
}
use my_linux_demo.Http.CString.{
  Bytes, c_string, is_in, strpbrk, strspn, strchr, to_lower, strcasecmp_eq, strncasecmp_eq,
}
use my_linux_demo.Http.Request.{
  parse_requestline, parse_headers, accept_url, find_slash, check_version, version_at, split_url,
  check_method, url_at, print_host,
}
use my_linux_demo.Http.Content.{parse_content, analyse, after_requestline, after_headers}
use my_linux_demo.Http.Scan.{line_end, outcome, parse_line-outcome}
use my_linux_demo.Http.Resume.{parse_line-resume}
use my_linux_demo.Http.RequestLine.{
  RequestLine, line_of, IsGet, Accepted, parse_requestline-Accepted,
}
use my_linux_demo.Http.Headers.{header_of, parse_headers-header_of}
use my_linux_demo.Http.Lines.{crlf}
use my_linux_demo.Http.Whole.{render, report, session, Complete, parse_content-Complete}
use my_linux_demo.Http.Delivery.{serve-pieces}
use my_linux_demo.Http.Pieces.{says_of}
use my_linux_demo.Http.Server.{Correct, serve, serve-Correct, arrived, at_start}

-- "get /a http/1.1"
abbrev request : RequestLine
request = record {
  method = b'g' ∷ b'e' ∷ b't' ∷ [];
  target = b'a' ∷ [];
  version = b'h' ∷ b't' ∷ b't' ∷ b'p' ∷ b'/' ∷ b'1' ∷ b'.' ∷ b'1' ∷ [];
  sp = b' ';
  sp' = b'\t';
}

-- "host: x"
abbrev host : Bytes
host = b'h' ∷ b'o' ∷ b's' ∷ b't' ∷ b':' ∷ b' ' ∷ b'x' ∷ []

abbrev headers : List Bytes
headers = host ∷ (b'z' ∷ []) ∷ []

abbrev body : Bytes
body = b'?' ∷ []

abbrev whole : Bytes
whole = crlf (line_of request) (render headers body)

abbrev buffer : Bytes → Buffer
buffer s i = get_elem? s i

request-IsGet : IsGet request
unfolding is_in strcasecmp_eq to_lower
request-IsGet = record {
  get = refl;
  method_free = (refl, (refl, (refl, tt)));
  sp_blank = refl;
  target_free = (refl, (refl, tt));
  sp'_blank = refl;
  version_is = refl;
}

-- The run of the whole request, computed.
whole_run :
    Returns
      (Complete 31
        (method_is_get ∷ url_is (b'/' ∷ b'a' ∷ []) ∷ host_is (b'x' ∷ []) ∷ unknown_header ∷ []))
      (parse_content 4 64 (session (buffer whole) 0 check_state_requestline 32 []))
unfolding parse_content analyse after_requestline after_headers parse_line line_loop at_cr
    parse_requestline parse_headers accept_url find_slash check_version version_at split_url
    check_method url_at print_host c_string is_in strpbrk strspn strchr to_lower strcasecmp_eq
    strncasecmp_eq
whole_run = (refl, refl, refl, refl)

-- A lone CR, and a stray LF.
bad_line :
    parse_line (buffer (b'a' ∷ cr ∷ b'b' ∷ [])) 0 3
    ≡ some (line_bad, buffer (b'a' ∷ cr ∷ b'b' ∷ []), 1)
unfolding parse_line line_loop at_cr
bad_line = refl

parse_line-outcome_example :
    parse_line (buffer whole) 0 32 ≡ some (outcome (buffer whole) 0 (line_end whole))
parse_line-outcome_example =
    parse_line-outcome whole (buffer whole) 0 32 (unfold line_end in ground arith) tt refl

-- "a\r", and then "\nb".
abbrev front : Bytes
front = b'a' ∷ cr ∷ []

abbrev rear : Bytes
rear = lf ∷ b'b' ∷ []

parse_line-resume_example :
    parse_line (buffer (front ++ rear)) 1 4 ≡ parse_line (buffer (front ++ rear)) 0 4
parse_line-resume_example =
    parse_line-resume front rear (buffer (front ++ rear)) (buffer (front ++ rear)) 0 1
      (refl, (refl, (refl, (refl, tt)))) tt (unfold parse_line line_loop at_cr in refl)

abbrev header_line : Buffer
header_line = buffer (host ++ nul ∷ [])

parse_headers-header_of_example : parse_headers 64 header_line 0 ≡ some (header_of host)
parse_headers-header_of_example =
    parse_headers-header_of 64 header_line 0 host (ground arith) (omega arith)

abbrev request_line : Buffer
request_line = buffer (line_of request ++ nul ∷ nul ∷ [])

parse_requestline-Accepted_example :
    Returns
      (Accepted request_line (0 + length (line_of request)) (b'/' ∷ b'a' ∷ []))
      (parse_requestline 64 request_line 0 check_state_requestline)
parse_requestline-Accepted_example =
    parse_requestline-Accepted 64 0 request_line check_state_requestline request (ground arith)
      (omega arith) request-IsGet

whole_content :
    Returns
      (Complete
        (32 - length body)
        (([] ++ method_is_get ∷ url_is (b'/' ∷ b'a' ∷ []) ∷ []) ++ report headers))
      (parse_content 4 64 (session (buffer whole) 0 check_state_requestline 32 []))
whole_content =
    parse_content-Complete request headers body 4 64 (buffer whole) 0 32 [] (ground arith) tt
      (ground arith) (omega arith) request-IsGet (ground arith) (omega arith) refl

whole_in_one :
    Returns
      (Correct (method_is_get ∷ url_is (b'/' ∷ b'a' ∷ []) ∷ report headers))
      (serve 4 64 (at_start 64) (arrived whole ∷ []))
whole_in_one =
    serve-Correct request headers body 4 64 [] (ground arith) request-IsGet (ground arith)
      (omega arith) (omega arith)

-- The request in three pieces: the first ends in the request line, the second at the CR of a header.
abbrev front_piece : Bytes
front_piece = b'g' ∷ b'e' ∷ b't' ∷ b' ' ∷ b'/' ∷ b'a' ∷ []

abbrev middle_piece : Bytes
middle_piece = b'\t' ∷ (request.version ++ cr ∷ lf ∷ host ++ cr ∷ [])

abbrev last_piece : Bytes
last_piece = lf ∷ b'z' ∷ cr ∷ lf ∷ cr ∷ lf ∷ body

abbrev pieces : List Bytes
pieces = front_piece ∷ middle_piece ∷ last_piece ∷ []

serve-pieces_example :
    Returns
      (Correct (says_of request headers))
      (serve 4 64 (at_start 64) (map arrived pieces ++ []))
serve-pieces_example =
    serve-pieces request headers body 4 64 pieces [] (ground arith) request-IsGet (ground arith)
      (omega arith) (omega arith) (ground arith) refl
