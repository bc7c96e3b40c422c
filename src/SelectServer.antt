-- ===== src/SelectServer.antt =====
-- The echo server of unp/selectserver_test.c: the body of its `for(;;)` loop around `select`.
pub mod Room
pub mod Table
pub mod Bounds
pub mod Tests
use my_linux_demo.Base.{
  ℕ, zero, suc, ◌+◌, ◌-◌, Bool, true, false, Option, none, some, List, [], ◌∷◌, ◌++◌, ◌>>=◌, ltb,
  leb, ◌==◌, if◌then◌else◌, get_elem?, assign, length,
}

-- `client` has FD_SETSIZE entries, and `none` is the -1 of a free one. `limit` is `maxi + 1`.
pub record Select : Type 0 where
  pub client : List (Option ℕ)
  pub limit : ℕ
  pub maxfd : ℕ
  pub allset : ℕ → Bool

-- What `read` gives: 0, a negative number, or some bytes.
pub data ReadResult : Type 0 where
  eof failed : ReadResult
  bytes : List ℕ → ReadResult

-- What one turn of the loop gets from the system: `select`, `accept`, whether `getsockname`
-- succeeds, and `read` on a descriptor.
pub record Turn : Type 0 where
  pub rset : ℕ → Bool
  pub nready : ℕ
  pub connfd : ℕ
  pub named : Bool
  pub read : ℕ → ReadResult

-- The calls of `close` and `write`, a `write` of a negative length fails, and of `err_quit`.
pub data Call : Type 0 where
  err_quit : Call
  close_fd write_failed : (fd : ℕ) → Call
  write : (fd : ℕ) → List ℕ → Call

-- The table once `connfd` is stored in the first free entry, and `i` behind the loop.
unfoldable pub place : List (Option ℕ) → (connfd : ℕ) → List (Option ℕ) × ℕ
place [] connfd = ([], 0)
place (none ∷ xs) connfd = (some connfd ∷ xs, 0)
place (some fd ∷ xs) connfd = let (ys, i) = place xs connfd in (some fd ∷ ys, suc i)

-- A new client. FD_SET writes behind `allset`, which has FD_SETSIZE bits, for a larger descriptor.
unfoldable pub accept : Select → (connfd : ℕ) → Option Select
accept s connfd =
    let (client, i) = place s.client connfd in
    if ltb connfd (length s.client)
    then some (record {
      client = client;
      limit = if leb s.limit i then i + 1 else s.limit;
      maxfd = if ltb s.maxfd connfd then connfd else s.maxfd;
      allset = assign s.allset connfd true;
    })
    else none

-- `client[i]=-1`
unfoldable pub vacate : List (Option ℕ) → ℕ → List (Option ℕ)
vacate [] i = []
vacate (x ∷ xs) zero = none ∷ xs
vacate (x ∷ xs) (suc i) = x ∷ vacate xs i

-- A descriptor that is ready: FD_CLR clears it in `rset`, which is not used again for it.
unfoldable pub on_ready : Select → (i sockfd : ℕ) → ReadResult → Select × Call
on_ready s i sockfd eof = (record s { client = vacate s.client i }, close_fd sockfd)
on_ready s i sockfd failed = (s, write_failed sockfd)
on_ready s i sockfd (bytes buf) = (s, write sockfd buf)

-- A call in front of those that the rest of the loop makes.
abbrev pub logged : Call → Option (Select × List Call) → Option (Select × List Call)
logged call rest = do (s, calls) ← rest; some (s, call ∷ calls)

-- The loop over the table, with the entries that are left; `none` is a read behind the table.
unfoldable pub scan : (rounds : ℕ) → Select → Turn → (i nready : ℕ) → Option (Select × List Call)
scan zero s t i nready = some (s, [])
scan (suc rounds) s t i nready = do
  entry ← get_elem? s.client i
  elim entry [
    | none ↦ scan rounds s t (i + 1) nready
    | some sockfd ↦
        let skip = scan rounds s t (i + 1) nready in
        let (s', call) = on_ready s i sockfd (t.read sockfd) in
        let rest = scan rounds s' t (i + 1) (nready - 1) in
        if t.rset sockfd
        then (if leb nready 1 then some (s', call ∷ []) else logged call rest)
        else skip
  ]

-- One turn of the loop of `main`.
unfoldable pub turn : (listenfd : ℕ) → Select → Turn → Option (Select × List Call)
turn listenfd s t =
    if t.rset listenfd
    then (if t.named
        then (do
          s' ← accept s t.connfd
          if leb t.nready 1 then some (s', []) else scan s'.limit s' t 0 (t.nready - 1))
        else some (s, err_quit ∷ []))
    else scan s.limit s t 0 t.nready
