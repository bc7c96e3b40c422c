-- ===== src/Pipes.antt =====
-- pipe/parent_child_communicate.c: the parent sends its input to the child through a pipe, the child
-- turns it to upper case and sends it back through another. A step is one transfer by the kernel,
-- of any number of bytes from one on, which is how `read` and `write` work on pipes; a pipe holds
-- `capacity` bytes, and `write` waits while it is full. Either process may be next. `upper` is
-- `toupper`. The calls are taken to succeed.
pub mod Order
pub mod Invariant
pub mod Ending
pub mod Tests
use my_linux_demo.Base.{
  ℕ, zero, suc, Bool, true, false, ◌&&◌, Option, none, some, List, [], ◌∷◌, ◌++◌, ◌>>=◌, ◌≡◌, map,
  ltb, leb, length, ◌+◌, if◌then◌else◌,
}

-- BUFSIZE
abbrev pub bufsize : ℕ
bufsize = 10000

-- Where the parent stands: before it reads its input, with what it still has to write to the child,
-- before it reads from the child, with what it still has to print, and at its end.
pub data Parent : Type 0 where
  reading : Parent
  sending : List ℕ → Parent
  receiving : Parent
  printing : List ℕ → Parent
  ended : Parent

-- Where the child stands: before it reads, with what it still has to write, at its end, and killed
-- by SIGPIPE with what it could not write.
pub data Child : Type 0 where
  listening : Child
  answering : List ℕ → Child
  finished : Child
  killed : List ℕ → Child

pub record System : Type 0 where
  pub input : List ℕ
  pub pipe1 : List ℕ
  pub pipe2 : List ℕ
  pub output : List ℕ
  pub parent : Parent
  pub child : Child

abbrev pub init : List ℕ → System
init input = record {
  input = input;
  pipe1 = [];
  pipe2 = [];
  output = [];
  parent = reading;
  child = listening;
}

abbrev pub is_ended : Parent → Bool
is_ended ended = true
is_ended p = false

abbrev pub is_gone : Child → Bool
is_gone finished = true
is_gone (killed bs) = true
is_gone c = false

-- The first `n` bytes, and the others.
unfoldable pub split : ℕ → List ℕ → Option (List ℕ × List ℕ)
split zero xs = some ([], xs)
split (suc n) [] = none
split (suc n) (x ∷ xs) = do (front, rest) ← split n xs; some (x ∷ front, rest)

-- A transfer of `n` bytes, and the state behind it.
unfoldable pub moved : ℕ → List ℕ → (List ℕ → List ℕ → System) → Option System
moved n xs after = do
  (front, rest) ← split n xs
  if ltb 0 n && leb n bufsize then some (after front rest) else none

-- A transfer of `n` bytes into a pipe.
unfoldable pub pushed :
    (capacity n : ℕ) (pipe xs : List ℕ) → (List ℕ → List ℕ → System) → Option System
pushed capacity n pipe xs after =
    let all = moved n xs after in if leb (length pipe + n) capacity then all else none

-- Where the parent stands once it has written, with what is left to write.
abbrev pub sent : List ℕ → Parent
sent [] = receiving
sent (b ∷ bs) = sending (b ∷ bs)

abbrev pub printed : List ℕ → Parent
printed [] = reading
printed (b ∷ bs) = printing (b ∷ bs)

abbrev pub answered : List ℕ → Child
answered [] = listening
answered (b ∷ bs) = answering (b ∷ bs)

-- `read(STDIN_FILENO,buf,BUFSIZE)`; the parent ends at the end of its input.
unfoldable pub read_input : (n : ℕ) → System → List ℕ → Option System
read_input n s [] = some (record s { parent = ended })
read_input n s (x ∷ xs) =
    moved n (x ∷ xs) λ buf rest. record s { input = rest; parent = sending buf }

-- `read(pipe2[0],buf,BUFSIZE)`; it waits as long as the child may still write.
unfoldable pub read_answer : (n : ℕ) → System → List ℕ → Option System
read_answer n s [] = if is_gone s.child then some (record s { parent = reading }) else none
read_answer n s (x ∷ xs) =
    moved n (x ∷ xs) λ buf rest. record s { pipe2 = rest; parent = printing buf }

-- The loop of the parent.
unfoldable pub parent_step : (capacity n : ℕ) → System → Parent → Option System
parent_step capacity n s reading = read_input n s s.input
parent_step capacity n s (sending buf) =
    pushed capacity n s.pipe1 buf
      λ front rest. record s { pipe1 = s.pipe1 ++ front; parent = sent rest }
parent_step capacity n s receiving = read_answer n s s.pipe2
parent_step capacity n s (printing buf) =
    moved n buf λ front rest. record s { output = s.output ++ front; parent = printed rest }
parent_step capacity n s ended = none

-- `read(pipe1[0],buf,BUFSIZE)` and the loop with `toupper`; the child ends once the parent has ended
-- and the pipe is empty.
unfoldable pub read_request : (upper : ℕ → ℕ) (n : ℕ) → System → List ℕ → Option System
read_request upper n s [] = if is_ended s.parent then some (record s { child = finished }) else none
read_request upper n s (x ∷ xs) =
    moved n (x ∷ xs) λ buf rest. record s { pipe1 = rest; child = answering (map upper buf) }

-- The loop of the child.
unfoldable pub child_step : (capacity : ℕ) (upper : ℕ → ℕ) (n : ℕ) → System → Child → Option System
child_step capacity upper n s listening = read_request upper n s s.pipe1
child_step capacity upper n s (answering buf) =
    if is_ended s.parent
    then some (record s { child = killed buf })
    else pushed capacity n s.pipe2 buf
        λ front rest. record s { pipe2 = s.pipe2 ++ front; child = answered rest }
child_step capacity upper n s finished = none
child_step capacity upper n s (killed buf) = none

pub data Actor : Type 0 where
  the_parent the_child : Actor

unfoldable pub step : (capacity : ℕ) (upper : ℕ → ℕ) → System → Actor → (n : ℕ) → Option System
step capacity upper s the_parent n = parent_step capacity n s s.parent
step capacity upper s the_child n = child_step capacity upper n s s.child

-- The states that are reached on an input.
pub data Reach (capacity : ℕ) (upper : ℕ → ℕ) (input : List ℕ) : System → Type 0 where
  start : Reach capacity upper input (init input)
  next :
      {s t : System} (a : Actor) (n : ℕ)
      → Reach capacity upper input s
      → step capacity upper s a n ≡ some t
      → Reach capacity upper input t
