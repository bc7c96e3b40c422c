-- ===== src/EchoServer.antt =====
-- The echo server of unp/my_echo_ser.c, with a process for each client: `echo`, the loop of `main`
-- and `sig_chld`. What `accept`, `fork` and `read` give is an argument. `read` overwrites the front
-- of `buf`, whose length is MAXLINE of unp.h; a read or write behind it is a fault.
pub mod Replies
pub mod Connections
pub mod Children
pub mod Tests
use my_linux_demo.Base.{
  ℕ, ◌-◌, Bool, true, false, ◌&&◌, Option, none, some, List, [], ◌∷◌, ◌++◌, ◌>>=◌, leb,
  if◌then◌else◌, length, take, assign,
}

-- What `read` gives: a failure with EINTR, another one, the end or some bytes.
pub data Input : Type 0 where
  interrupted broken ended : Input
  content : List ℕ → Input

-- The calls of a child in order: `writen` to the client, `write` to standard output, the message of
-- a failed `read`, `close`.
pub data ChildCall : Type 0 where
  reply print : List ℕ → ChildCall
  read_error : ChildCall
  close_fd : (fd : ℕ) → ChildCall

abbrev pub is_lower : ℕ → Bool
is_lower c = leb b'a' c && leb c b'z'

-- The `while` loop with `buf[i]=buf[i]-32`: it ends at the first byte that is no lower-case letter,
-- and nothing else ends it.
unfoldable pub capitalise : (buf : List ℕ) → Option (List ℕ)
capitalise [] = none
capitalise (c ∷ buf) =
    let rest = capitalise buf in
    if is_lower c then (do buf' ← rest; some ((c - 32) ∷ buf')) else some (c ∷ buf)

-- The buffer with the bytes of a `read` at its front.
unfoldable pub overwritten : (bytes buf : List ℕ) → List ℕ
overwritten [] buf = buf
overwritten (c ∷ bytes) [] = []
overwritten (c ∷ bytes) (b ∷ buf) = c ∷ overwritten bytes buf

-- Calls in front of those that follow.
abbrev pub preceded : List ChildCall → List ChildCall × Bool → List ChildCall × Bool
preceded calls (rest, returned) = (calls ++ rest, returned)

-- The calls of `echo`, and whether it has returned: it waits for more behind the last result.
unfoldable pub echo : (buf : List ℕ) → List Input → Option (List ChildCall × Bool)
echo buf [] = some ([], false)
echo buf (interrupted ∷ rs) = echo buf rs
echo buf (broken ∷ rs) = some (read_error ∷ [], true)
echo buf (ended ∷ rs) = some ([], true)
echo buf (content bytes ∷ rs) = do
  let received = overwritten bytes buf
  let n = length bytes
  shown ← capitalise received
  rest ← echo shown rs
  some (preceded (reply (take n received) ∷ print (take n shown) ∷ []) rest)

-- The child: its calls up to `_exit`, or those that it has made so far.
unfoldable pub child : (listenfd clifd : ℕ) (buf : List ℕ) → List Input → Option (List ChildCall)
child listenfd clifd buf rs = do
  (calls, returned) ← echo buf rs
  some (close_fd listenfd ∷ calls ++ (if returned then close_fd clifd ∷ [] else []))

-- What a turn of the loop of `main` gets: `accept` fails, with any error; a client comes and `fork`
-- gives a child, which reads `input`; or `fork` fails.
pub data Attempt : Type 0 where
  accept_failed : Attempt
  forked : (clifd : ℕ) → (input : List Input) → Attempt
  fork_failed : (clifd : ℕ) → Attempt

-- `sizeof(cliaddr)`, which stays in `clilen`
abbrev pub clilen : ℕ
clilen = 16

-- The open descriptors of the parent, and the calls of the children.
pub record Parent : Type 0 where
  pub is_open : ℕ → Bool
  pub children : List (List ChildCall)

-- A turn of the loop: `errno=EINTR` assigns, so the loop goes on after every error of `accept`;
-- and `close(clilen)` closes the descriptor of that number.
unfoldable pub turn : (listenfd : ℕ) (buf : List ℕ) → Parent → Attempt → Option Parent
turn listenfd buf s accept_failed = some s
turn listenfd buf s (forked clifd rs) = do
  calls ← child listenfd clifd buf rs
  some (record {
    is_open = assign (assign s.is_open clifd true) clilen false;
    children = s.children ++ calls ∷ [];
  })
turn listenfd buf s (fork_failed clifd) =
    some (record {
      is_open = assign (assign s.is_open clifd true) clilen false;
      children = s.children;
    })

-- The `for(;;)` loop.
unfoldable pub main_loop : (listenfd : ℕ) (buf : List ℕ) → Parent → List Attempt → Option Parent
main_loop listenfd buf s [] = some s
main_loop listenfd buf s (t ∷ ts) = do s' ← turn listenfd buf s t; main_loop listenfd buf s' ts
