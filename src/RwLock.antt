-- ===== src/RwLock.antt =====
-- pthread/pthread_rwlock.c: the main thread and the son change `a` under a read-write lock. A step is
-- what one thread does up to its next access to `a` or call of the thread library. The modes in which
-- they lock are arguments: the code has `read` for both, and its first comment says what another
-- mode would give. `a` starts at 1 and is lowered once, so that it does not get below 0.
pub mod Invariant
pub mod Value
pub mod Changes
pub mod Tests
use my_linux_demo.Base.{
  ℕ, zero, suc, ◌-◌, ◌≡◌, Bool, true, false, ◌||◌, Option, none, some, List, [], ◌∷◌, ◌++◌, ◌>>=◌,
  ltb, if◌then◌else◌,
}

-- `pthread_rwlock_rdlock` and `pthread_rwlock_wrlock`
pub data Mode : Type 0 where
  read write : Mode

-- `prwt`, `a` and what has been printed of it.
pub record Shared : Type 0 where
  pub readers : ℕ
  pub writer : Bool
  pub a : ℕ
  pub output : List ℕ

-- Where a thread stands: before it locks, before it reads `a`, before it writes it, before it
-- reads it for `printf`, before it prints that, before it unlocks, and behind.
pub data Place : Type 0 where
  waiting holding : Place
  loaded : (v : ℕ) → Place
  stored : Place
  noted : (v : ℕ) → Place
  shown ended : Place

unfoldable pub lock : Mode → Shared → Option Shared
lock read s = if s.writer then none else some (record s { readers = suc s.readers })
lock write s = if s.writer || ltb 0 s.readers then none else some (record s { writer = true })

unfoldable pub unlock : Mode → Shared → Shared
unlock read s = record s { readers = s.readers - 1 }
unlock write s = record s { writer = false }

-- The body of `pthread_func`, and that of `main` from its lock on; `change` is `a++` or `a--`.
unfoldable pub thread : Mode → (change : ℕ → ℕ) → Shared → Place → Option (Shared × Place)
thread m change s waiting = do s' ← lock m s; some (s', holding)
thread m change s holding = some (s, loaded s.a)
thread m change s (loaded v) = some (record s { a = change v }, stored)
thread m change s stored = some (s, noted s.a)
thread m change s (noted v) = some (record s { output = s.output ++ v ∷ [] }, shown)
thread m change s shown = some (unlock m s, ended)
thread m change s ended = none

-- The two threads, and the modes in which they lock.
pub record System : Type 0 where
  pub shared : Shared
  pub main : Place
  pub son : Place

abbrev pub init : System
init = record {
  shared = record { readers = 0; writer = false; a = 1; output = [] };
  main = waiting;
  son = waiting;
}

abbrev pub raise : ℕ → ℕ
raise v = suc v

abbrev pub lower : ℕ → ℕ
lower v = v - 1

pub data Actor : Type 0 where
  the_main the_son : Actor

unfoldable pub step : (main_mode son_mode : Mode) → System → Actor → Option System
step mm sm s the_main = do
  (shared, place) ← thread mm lower s.shared s.main
  some (record { shared = shared; main = place; son = s.son })
step mm sm s the_son = do
  (shared, place) ← thread sm raise s.shared s.son
  some (record { shared = shared; main = s.main; son = place })

-- The reachable states.
pub data Reach (mm sm : Mode) : System → Type 0 where
  start : Reach mm sm init
  next : {s t : System} (x : Actor) → Reach mm sm s → step mm sm s x ≡ some t → Reach mm sm t
