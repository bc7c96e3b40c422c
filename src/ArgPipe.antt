-- ===== src/ArgPipe.antt =====
-- pipe/test_pipe.c: the parent writes its argument into a pipe, the child prints what it reads of
-- it, and a farewell at the end. A step is one transfer by the kernel, of any number of bytes from
-- one on, or one call; either process may be next. The calls are taken to succeed, and a `write` to
-- standard output to take all bytes.
pub mod Flow
pub mod Tests
use my_linux_demo.Base.{
  ℕ, suc, ◌+◌, Bool, true, false, ◌&&◌, Option, none, some, List, [], ◌∷◌, ◌++◌, ◌>>=◌, ◌≡◌, ltb,
  leb, if◌then◌else◌,
}
use my_linux_demo.Pipes.{split}

-- BUFFSIZE
abbrev pub buffsize : ℕ
buffsize = 20

-- "\nbye\n"
abbrev pub bye : List ℕ
bye = b'\n' ∷ b'b' ∷ b'y' ∷ b'e' ∷ b'\n' ∷ []

-- The parent with what is left to write, in `wait`, and at its end.
pub data Parent : Type 0 where
  writing : List ℕ → Parent
  waiting ended : Parent

-- The child before it reads, with what it has read, and at its end.
pub data Child : Type 0 where
  reading : Child
  printing : List ℕ → Child
  finished : Child

pub record System : Type 0 where
  pub parent : Parent
  pub child : Child
  pub pipe : List ℕ
  pub output : List ℕ

abbrev pub init : (argument : List ℕ) → System
init argument = record { parent = writing argument; child = reading; pipe = []; output = [] }

-- `write(pfd[1],...)`, `close(pfd[1])` and `wait(NULL)`
unfoldable pub parent_step : (n : ℕ) → System → Parent → Option System
parent_step n s (writing []) = some (record s { parent = waiting })
parent_step n s (writing (c ∷ cs)) = do
  (front, rest) ← split n (c ∷ cs)
  if ltb 0 n then some (record s { parent = writing rest; pipe = s.pipe ++ front }) else none
parent_step n s waiting = elim s.child [ finished ↦ some (record s { parent = ended }) | _ ↦ none ]
parent_step n s ended = none

-- `read(pfd[0],buf,BUFFSIZE)`: it waits as long as the pipe is empty and the parent has not closed it.
unfoldable pub read_pipe : (n : ℕ) → System → List ℕ → Option System
read_pipe n s [] = elim s.parent [
  | writing cs ↦ none
  | _ ↦ some (record s { child = finished; output = s.output ++ bye })
]
read_pipe n s (c ∷ cs) = do
  (buf, rest) ← split n (c ∷ cs)
  if ltb 0 n && leb n buffsize then some (record s { child = printing buf; pipe = rest }) else none

unfoldable pub child_step : (n : ℕ) → System → Child → Option System
child_step n s reading = read_pipe n s s.pipe
child_step n s (printing buf) = some (record s { child = reading; output = s.output ++ buf })
child_step n s finished = none

pub data Actor : Type 0 where
  the_parent the_child : Actor

unfoldable pub step : System → Actor → (n : ℕ) → Option System
step s the_parent n = parent_step n s s.parent
step s the_child n = child_step n s s.child

-- The states that are reached in `k` steps.
pub data Reach (argument : List ℕ) : (k : ℕ) → System → Type 0 where
  start : Reach argument 0 (init argument)
  next :
      {k : ℕ} {s t : System} (x : Actor) (n : ℕ)
      → Reach argument k s
      → step s x n ≡ some t
      → Reach argument (suc k) t
