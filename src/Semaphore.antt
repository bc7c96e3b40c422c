-- ===== src/Semaphore.antt =====
-- The two threads of sem/unamed_sem_test.c, which count to a common total under a semaphore. A
-- thread makes one access to the shared variables at a time, and any thread may be next.
pub mod Counting
pub mod Progress
pub mod Tests
use my_linux_demo.Base.{
  ℕ, zero, suc, ◌+◌, ◌-◌, ◌<◌, ◌≡◌, Option, none, some, ◌>>=◌, ltb, ◌==◌, if◌then◌else◌, assign,
}

-- `global` and `sem`
pub record Shared : Type 0 where
  pub global : ℕ
  pub sem : ℕ

-- Where a thread stands in `threadFunc`, with `j`: at the head of the loop, before `global` is
-- read, with the value that it has read, before `sem_post`, and behind the loop.
pub data Pc : Type 0 where
  head : (j : ℕ) → Pc
  entered : (j : ℕ) → Pc
  loaded : (j loc : ℕ) → Pc
  stored : (j : ℕ) → Pc
  finished : Pc

-- One access of a thread; `none` where it has to wait, or has finished.
unfoldable pub thread_func : (loop : ℕ) → Shared → Pc → Option (Shared × Pc)
thread_func loop m (head j) =
    if ltb j loop
    then (if m.sem == 0 then none else some (record m { sem = m.sem - 1 }, entered j))
    else some (m, finished)
thread_func loop m (entered j) = some (m, loaded j m.global)
thread_func loop m (loaded j loc) = some (record m { global = loc + 1 }, stored j)
thread_func loop m (stored j) = some (record m { sem = m.sem + 1 }, head (j + 1))
thread_func loop m finished = none

pub record System : Type 0 where
  pub shared : Shared
  pub pc : ℕ → Pc

-- `sem_init(&sem,0,1)` and the calls of `pthread_create`
abbrev pub init : System
init = record { shared = record { global = 0; sem = 1 }; pc = λ i. head 0 }

unfoldable pub step : (loop : ℕ) → System → (i : ℕ) → Option System
step loop s i = do
  (m, p) ← thread_func loop s.shared (s.pc i)
  some (record { shared = m; pc = assign s.pc i p })

-- The states that `n` threads reach.
pub data Reach (n loop : ℕ) : System → Type 0 where
  start : Reach n loop init
  next : {s t : System} (i : ℕ) → Reach n loop s → i < n → step loop s i ≡ some t → Reach n loop t

-- The threads of `main`, and what each is told to count to.
abbrev pub threads : ℕ
threads = 2

abbrev pub loop_count : ℕ
loop_count = 1000
