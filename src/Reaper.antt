-- ===== src/Reaper.antt =====
-- pthread/pthread_test.c: `main` starts threads and joins them in the order in which they end, under
-- a mutex and a condition variable. A step is what a thread does up to its next call of the thread
-- library, which is taken to succeed; any thread may be next.
pub mod Invariant
pub mod WorkerSteps
pub mod MainSteps
pub mod Progress
pub mod Tests
use my_linux_demo.Base.{
  ℕ, zero, suc, ◌+◌, ◌-◌, ◌<◌, ◌≡◌, Bool, true, false, Option, none, some, ◌>>=◌, ltb, ◌==◌,
  if◌then◌else◌, assign,
}

-- `enum tstate`
pub data Tstate : Type 0 where
  ts_alive ts_terminated ts_joined : Tstate

-- Where a thread stands in `threadfun`: not created, in `sleep`, before `pthread_mutex_lock`, behind
-- it, before `pthread_mutex_unlock`, before `pthread_cond_signal`, and ended.
pub data Worker : Type 0 where
  absent sleeping locking holding unlocking signalling ended : Worker

-- Where `main` stands: in the loop that creates the threads, at the test of `numlive`, before
-- `pthread_mutex_lock`, at the test of `numunjoin`, in `pthread_cond_wait` before and after it has
-- been woken, in the loop over the threads, before `pthread_mutex_unlock`, and returned.
pub data Main : Type 0 where
  creating : (idx : ℕ) → Main
  looping locks testing waits woken : Main
  scanning : (idx : ℕ) → Main
  unlocks returned : Main

-- The owner of the mutex `pmt`.
pub data Owner : Type 0 where
  free main_thread : Owner
  worker : ℕ → Owner

pub record System : Type 0 where
  pub main : Main
  pub workers : ℕ → Worker
  pub owner : Owner
  pub thread_state : ℕ → Tstate
  pub tot_threads : ℕ
  pub numlive : ℕ
  pub numunjoin : ℕ

-- `calloc` leaves every thread in the state TS_ALIVE.
abbrev pub init : System
init = record {
  main = creating 0;
  workers = λ i. absent;
  owner = free;
  thread_state = λ i. ts_alive;
  tot_threads = 0;
  numlive = 0;
  numunjoin = 0;
}

abbrev pub is_free : Owner → Bool
is_free free = true
is_free _ = false

abbrev pub is_terminated : Tstate → Bool
is_terminated ts_terminated = true
is_terminated _ = false

abbrev pub has_ended : Worker → Bool
has_ended ended = true
has_ended _ = false

-- `pthread_cond_signal`
abbrev pub notified : Main → Main
notified waits = woken
notified m = m

abbrev pub set_worker : System → ℕ → Worker → System
set_worker s i w = record s { workers = assign s.workers i w }

-- `threadfun`, from where the thread `idx` stands.
unfoldable pub threadfun : System → (idx : ℕ) → Worker → Option System
threadfun s i absent = none
threadfun s i sleeping = some (set_worker s i locking)
threadfun s i locking =
    if is_free s.owner
    then some (record s { workers = assign s.workers i holding; owner = worker i })
    else none
threadfun s i holding = some (record s {
  workers = assign s.workers i unlocking;
  numunjoin = s.numunjoin + 1;
  thread_state = assign s.thread_state i ts_terminated;
})
threadfun s i unlocking = some (record s { workers = assign s.workers i signalling; owner = free })
threadfun s i signalling =
    some (record s { workers = assign s.workers i ended; main = notified s.main })
threadfun s i ended = none

-- The loop over the threads: `pthread_join` waits for the thread to end.
unfoldable pub scan : System → (idx : ℕ) → Option System
scan s idx =
    if is_terminated (s.thread_state idx)
    then (if has_ended (s.workers idx)
        then some (record s {
          main = scanning (idx + 1);
          thread_state = assign s.thread_state idx ts_joined;
          numlive = s.numlive - 1;
          numunjoin = s.numunjoin - 1;
        })
        else none)
    else some (record s { main = scanning (idx + 1) })

-- `main` with `n` threads to create.
unfoldable pub main_thread_step : (n : ℕ) → System → Main → Option System
main_thread_step n s (creating idx) =
    if ltb idx n
    then some (record s {
      main = creating (idx + 1);
      workers = assign s.workers idx sleeping;
      thread_state = assign s.thread_state idx ts_alive;
    })
    else some (record s { main = looping; tot_threads = n; numlive = n })
main_thread_step n s looping =
    some (record s { main = if ltb 0 s.numlive then locks else returned })
main_thread_step n s locks =
    if is_free s.owner then some (record s { main = testing; owner = main_thread }) else none
main_thread_step n s testing =
    if s.numunjoin == 0
    then some (record s { main = waits; owner = free })
    else some (record s { main = scanning 0 })
main_thread_step n s waits = none
main_thread_step n s woken =
    if is_free s.owner then some (record s { main = testing; owner = main_thread }) else none
main_thread_step n s (scanning idx) =
    if ltb idx s.tot_threads then scan s idx else some (record s { main = unlocks })
main_thread_step n s unlocks = some (record s { main = looping; owner = free })
main_thread_step n s returned = none

-- Who moves: `main`, the thread `i`, or nobody, where `pthread_cond_wait` returns without a signal.
pub data Actor : Type 0 where
  the_main spurious : Actor
  thread : ℕ → Actor

unfoldable pub step : (n : ℕ) → System → Actor → Option System
step n s the_main = main_thread_step n s s.main
step n s (thread i) = if ltb i n then threadfun s i (s.workers i) else none
step n s spurious = some (record s { main = notified s.main })

pub data Reach (n : ℕ) : System → Type 0 where
  start : Reach n init
  next : {s t : System} (a : Actor) → Reach n s → step n s a ≡ some t → Reach n t
