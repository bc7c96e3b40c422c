-- ===== src/Reaper/Invariant.antt =====
-- What holds of the threads and of `main` in every state that they reach.
use my_linux_demo.Base.{ℕ, ◌<◌, ◌≤◌, ◌≡◌, ◌⊎◌, refl, Bool, true, false, arith, total, total-eq}
use my_linux_demo.Reaper.{
  Tstate, ts_alive, ts_terminated, ts_joined, Worker, absent, sleeping, locking, holding, unlocking,
  signalling, ended, Main, creating, looping, testing, waits, scanning, unlocks, returned,
  main_thread, worker, System, init,
}

-- Behind `pthread_mutex_lock` and before `pthread_mutex_unlock`.
abbrev pub inside : Worker → Bool
inside holding = true
inside unlocking = true
inside _ = false

abbrev pub main_inside : Main → Bool
main_inside testing = true
main_inside (scanning idx) = true
main_inside unlocks = true
main_inside _ = false

-- What `thread[idx].state` says of the thread.
abbrev pub IsPaired : Worker → Tstate → Type 0
IsPaired absent t = t ≡ ts_alive
IsPaired sleeping t = t ≡ ts_alive
IsPaired locking t = t ≡ ts_alive
IsPaired holding t = t ≡ ts_alive
IsPaired unlocking t = t ≡ ts_terminated
IsPaired signalling t = t ≡ ts_terminated
IsPaired ended t = (t ≡ ts_terminated) ⊎ (t ≡ ts_joined)

-- Which threads `main` has created.
abbrev pub IsCreated : (n i : ℕ) → Main → Worker → Type 0
IsCreated n i (creating idx) absent = idx ≤ i
IsCreated n i (creating idx) w = i < idx
IsCreated n i m absent = n ≤ i
IsCreated n i m w = Unit

-- While `main` waits unwoken, every thread that has ended is joined.
abbrev pub IsAwaited : Main → Worker → Tstate → Type 0
IsAwaited waits ended t = t ≡ ts_joined
IsAwaited m w t = Unit

abbrev pub terminated : Tstate → ℕ
terminated ts_terminated = 1
terminated _ = 0

abbrev pub unjoined : Tstate → ℕ
unjoined ts_joined = 0
unjoined _ = 1

-- The counters; nobody is joined until the threads are created.
abbrev pub IsLive : ℕ → Main → (tot_threads numlive : ℕ) → (ℕ → Tstate) → Type 0
IsLive n (creating idx) tot live f = (idx ≤ n) × (n ≡ total unjoined n f)
IsLive n looping tot live f = (tot ≡ n) × (live ≡ total unjoined n f)
IsLive n (scanning idx) tot live f = (tot ≡ n) × (live ≡ total unjoined n f)
IsLive n unlocks tot live f = (tot ≡ n) × (live ≡ total unjoined n f)
IsLive n returned tot live f = (tot ≡ n) × (live ≡ total unjoined n f) × (live ≡ 0)
IsLive n m tot live f = (tot ≡ n) × (live ≡ total unjoined n f) × (0 < live)

pub record Inv (n : ℕ) (s : System) : Type 0 where
  pub worker_owns : (i : ℕ) → i < n → inside (s.workers i) ≡ true → s.owner ≡ worker i
  pub main_owns : main_inside s.main ≡ true → s.owner ≡ main_thread
  pub owner_in : (i : ℕ) → s.owner ≡ worker i → (i < n) × (inside (s.workers i) ≡ true)
  pub owner_main : s.owner ≡ main_thread → main_inside s.main ≡ true
  pub paired : (i : ℕ) → i < n → IsPaired (s.workers i) (s.thread_state i)
  pub created : (i : ℕ) → i < n → IsCreated n i s.main (s.workers i)
  pub awaited : (i : ℕ) → i < n → IsAwaited s.main (s.workers i) (s.thread_state i)
  pub counted : s.numunjoin ≡ total terminated n s.thread_state
  pub live : IsLive n s.main s.tot_threads s.numlive s.thread_state

pub init-Inv : (n : ℕ) → Inv n init
init-Inv n = record {
  worker_owns = λ i l e. cc;
  main_owns = λ e. cc;
  owner_in = λ i e. cc;
  owner_main = λ e. cc;
  paired = λ i l. refl;
  created = λ i l. omega arith;
  awaited = λ i l. tt;
  counted = omega (arith, total-eq terminated n 0 init.thread_state (λ i l. refl));
  live = omega (arith, total-eq unjoined n 1 init.thread_state (λ i l. refl));
}
