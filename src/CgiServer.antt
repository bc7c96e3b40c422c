-- ===== src/CgiServer.antt =====
-- `cgi_conn` of unp/high_performance/CGI_server.cpp: it reads a file name that ends in CR LF and
-- runs that file. `removefd`, of the header that the file includes, is an action; whether the file
-- exists and what `fork` returns are arguments.
pub mod Search
pub mod Pieces
pub mod Tests
use my_linux_demo.Base.{
  ℕ, zero, suc, ◌+◌, ◌-◌, Bool, true, false, ◌&&◌, Option, none, some, List, [], ◌∷◌, ◌>>=◌, ltb,
  leb, ◌==◌, if◌then◌else◌, length,
}
use my_linux_demo.Http.{Buffer, peek, poke, cr, lf, nul}
use my_linux_demo.Http.CString.{Bytes, c_string}
use my_linux_demo.Http.Server.{store, zeroed}

abbrev pub buffer_size : ℕ
buffer_size = 1024

-- `m_buff` and `m_read_idx`
pub record CgiConn : Type 0 where
  pub m_buff : Buffer
  pub m_read_idx : ℕ

unfoldable pub init : CgiConn
init = record { m_buff = zeroed buffer_size; m_read_idx = 0 }

-- What `recv` gives: EAGAIN, another error, the end, or some bytes.
pub data Recv : Type 0 where
  again failed closed : Recv
  got : Bytes → Recv

-- What `fork` returns.
pub data Fork : Type 0 where
  fork_failed in_parent in_child : Fork

-- `removefd(m_epollfd,m_sockfd)`, and `execl` of a file with the socket as standard output.
pub data CgiAction : Type 0 where
  removefd : CgiAction
  execl : Bytes → CgiAction

-- The search for "\r\n" from `idx` on, with the bytes that are left.
unfoldable pub search : (rounds : ℕ) → Buffer → (idx : ℕ) → Option ℕ
search zero b idx = some idx
search (suc rounds) b idx = do
  prev ← (if leb 1 idx then peek b (idx - 1) else some nul)
  c ← peek b idx
  let rest = search rounds b (idx + 1)
  if leb 1 idx && (prev == cr && c == lf) then some idx else rest

-- What follows once the file name stands in the buffer.
unfoldable pub answer : (exists : Bytes → Bool) → Fork → Bytes → List CgiAction
answer exists in_child file = if exists file then execl file ∷ [] else removefd ∷ []
answer exists f file = removefd ∷ []

-- An action in front of those that the rest of the loop makes.
abbrev pub before : CgiAction → Option (List CgiAction) → Option (List CgiAction)
before a rest = do rest ← rest; some (a ∷ rest)

-- The loop of `process`, on what the calls of `recv` give. After an error it goes on.
unfoldable pub process :
    (exists : Bytes → Bool) → Fork → CgiConn → List Recv → Option (List CgiAction)
process exists f s [] = some []
process exists f s (again ∷ rs) = process exists f s rs
process exists f s (failed ∷ rs) = before removefd (process exists f s rs)
process exists f s (closed ∷ rs) = some (removefd ∷ [])
process exists f s (got bs ∷ rs) = do
  b ← store s.m_buff s.m_read_idx bs
  let read_idx = s.m_read_idx + length bs
  idx ← search (length bs) b s.m_read_idx
  let rest = process exists f (record { m_buff = b; m_read_idx = read_idx }) rs
  let run = do
    b ← poke b (idx - 1) nul
    file ← c_string buffer_size b 0
    some (answer exists f file)
  if idx == read_idx then rest else run
