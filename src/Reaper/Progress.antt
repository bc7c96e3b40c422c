-- ===== src/Reaper/Progress.antt =====
-- The threads and `main` never block each other for ever, and `main` returns with all joined.
use mathlib.Core.Path.{subst}
use my_linux_demo.Base.{
  ℕ, ◌<◌, ◌≡◌, ◌≢◌, ◌⊎◌, inl, inr, refl, ap, ◌∙◌, Bool, true, false, none, some, arith, ltb, ◌==◌,
  le-total, total-eq, total-witness, Bool-cases, Option-cases,
}
use my_linux_demo.Reaper.{
  ts_joined, Worker, absent, locking, ended, Main, creating, looping, locks, testing, waits, woken,
  scanning, unlocks, returned, Owner, free, main_thread, worker, System, is_free, is_terminated,
  has_ended, notified, scan, threadfun, main_thread_step, Actor, the_main, spurious, thread, step,
  Reach, start, next,
}
use my_linux_demo.Reaper.Invariant.{inside, main_inside, terminated, unjoined, Inv, init-Inv}
use my_linux_demo.Reaper.WorkerSteps.{threadfun-Inv}
use my_linux_demo.Reaper.MainSteps.{main-Inv}

notified-Inv :
    (n : ℕ) (s : System) (m : Main)
    → s.main ≡ m
    → Inv n s
    → Inv n (record s { main = notified s.main })
notified-Inv n s m e inv = record {
  worker_owns = inv.worker_owns;
  main_owns = λ q. ground (arith, inv.main_owns);
  owner_in = inv.owner_in;
  owner_main = λ q. ground (arith, inv.owner_main);
  paired = inv.paired;
  created = λ k lk. ground (arith, inv.created k lk);
  awaited = λ k lk. ground (arith, inv.awaited k lk);
  counted = inv.counted;
  live = ground (arith, inv.live);
}

step-Inv : (n : ℕ) (s : System) (a : Actor) (t : System) → Inv n s → step n s a ≡ some t → Inv n t
unfolding step
step-Inv n s the_main t inv h = main-Inv n s inv s.main refl t h
step-Inv n s spurious t inv h =
    let e : record s { main = notified s.main } ≡ t = ground arith in
    subst (λ (u : System). Inv n u) e (notified-Inv n s s.main refl inv)
step-Inv n s (thread i) t inv h = elim (Bool-cases (ltb i n)) [
  | inl l ↦ threadfun-Inv n s inv i (ground arith) (s.workers i) refl t (ground arith)
  | inr no_thread ↦ absurd (ground arith)
]

pub Reach-Inv : {n : ℕ} {s : System} → Reach n s → Inv n s
Reach-Inv {n} start = init-Inv n
Reach-Inv {n} (next {s} {t} a r e) = step-Inv n s a t (Reach-Inv r) e

-- A thread that a step of `main` or of a worker is possible for, without a spurious wake-up.
abbrev pub CanStep : ℕ → System → Type 0
CanStep n s = (a : Actor) × (a ≢ spurious) × (t : System) × (step n s a ≡ some t)

-- A thread that does not wait for the mutex.
abbrev busy : Worker → Bool
busy absent = false
busy locking = false
busy ended = false
busy w = true

busy-moves : (s : System) (i : ℕ) (w : Worker) → busy w ≡ true → threadfun s i w ≢ none
unfolding threadfun
busy-moves s i absent b = cc
busy-moves s i locking b = cc
busy-moves s i ended b = cc
busy-moves s i w b = λ h. cc

free-moves :
    (s : System) (i : ℕ) (w : Worker)
    → is_free s.owner ≡ true
    → w ≢ absent
    → w ≢ ended
    → threadfun s i w ≢ none
unfolding threadfun
free-moves s i absent f a b = absurd (a refl)
free-moves s i ended f a b = absurd (b refl)
free-moves s i locking f a b = λ h. ground arith
free-moves s i w f a b = λ h. cc

inside-busy : (w : Worker) → inside w ≡ true → busy w ≡ true
inside-busy w h = ground arith

module _ (n : ℕ) (s : System) (inv : Inv n s) where
  worker-CanStep : (i : ℕ) → i < n → threadfun s i (s.workers i) ≢ none → CanStep n s
  unfolding step
  worker-CanStep i l moves = elim (Option-cases (threadfun s i (s.workers i))) [
    | inl e ↦ absurd (moves e)
    | inr (t, e) ↦ (thread i, λ q. cc, t, ground arith)
  ]

  main-CanStep : main_thread_step n s s.main ≢ none → CanStep n s
  unfolding step
  main-CanStep moves = elim (Option-cases (main_thread_step n s s.main)) [
    | inl e ↦ absurd (moves e)
    | inr (t, e) ↦ (the_main, λ q. cc, t, e)
  ]

  -- The owner of the mutex can step.
  owner-CanStep : (i : ℕ) → s.owner ≡ worker i → CanStep n s
  owner-CanStep i e =
      let (l, h) = inv.owner_in i e in
      worker-CanStep i l (busy-moves s i (s.workers i) (inside-busy (s.workers i) h))

  -- Whoever waits for the mutex has it free, or its owner can step.
  for_mutex :
      (o : Owner)
      → s.owner ≡ o
      → main_inside s.main ≡ false
      → (is_free s.owner ≡ true → CanStep n s)
      → CanStep n s
  for_mutex free e m go = go (ground arith)
  for_mutex main_thread e m go = absurd (ground (arith, inv.owner_main))
  for_mutex (worker i) e m go = owner-CanStep i e

  unjoined-present :
      (i : ℕ)
      → i < n
      → s.main ≡ waits
      → 0 < unjoined (s.thread_state i)
      → (s.workers i ≢ absent) × (s.workers i ≢ ended)
  unjoined-present i l m u =
      (λ h. ground (arith, inv.created i l), λ h. ground (arith, inv.awaited i l))

  scan-CanStep :
      (idx : ℕ) → s.main ≡ scanning idx → idx < n → ltb idx s.tot_threads ≡ true → CanStep n s
  unfolding main_thread_step scan
  scan-CanStep idx m l more = elim (Bool-cases (is_terminated (s.thread_state idx))) [
    | inr other ↦ main-CanStep (λ h. ground arith)
    | inl over ↦ elim (Bool-cases (has_ended (s.workers idx))) [
      | inl gone ↦ main-CanStep (λ h. ground arith)
      | inr here ↦
          worker-CanStep idx l (busy-moves s idx (s.workers idx) (ground (arith, inv.paired idx l)))
    ]
  ]

  main-progress : (m : Main) → s.main ≡ m → CanStep n s ⊎ (s.main ≡ returned)
  unfolding main_thread_step
  main-progress (creating idx) e = elim (Bool-cases (ltb idx n)) [
    | inl more ↦ inl (main-CanStep (λ h. ground arith))
    | inr all ↦ inl (main-CanStep (λ h. ground arith))
  ]
  main-progress looping e = inl (main-CanStep (λ h. ground arith))
  main-progress locks e =
      inl (for_mutex s.owner refl (ground arith) λ f. main-CanStep (λ h. ground arith))
  main-progress testing e = elim (Bool-cases (s.numunjoin == 0)) [
    | inl none_left ↦ inl (main-CanStep (λ h. ground arith))
    | inr some_left ↦ inl (main-CanStep (λ h. ground arith))
  ]
  main-progress waits e =
      let (i, l, u) = total-witness unjoined n s.thread_state (ground (arith, inv.live)) in
      let (a, b) = unjoined-present i l e u in
      inl (
        for_mutex s.owner refl (ground arith)
          λ f. worker-CanStep i l (free-moves s i (s.workers i) f a b))
  main-progress woken e =
      inl (for_mutex s.owner refl (ground arith) λ f. main-CanStep (λ h. ground arith))
  main-progress (scanning idx) e = elim (Bool-cases (ltb idx s.tot_threads)) [
    | inl more ↦ inl (scan-CanStep idx e (ground (arith, inv.live)) more)
    | inr all ↦ inl (main-CanStep (λ h. ground arith))
  ]
  main-progress unlocks e = inl (main-CanStep (λ h. ground arith))
  main-progress returned e = inr e

-- In every reachable state with n threads to create, a thread or main can step without a spurious
-- wake-up, or main has returned: main does not wait forever for a signal or for the mutex.
pub no_deadlock : {n : ℕ} {s : System} → Reach n s → CanStep n s ⊎ (s.main ≡ returned)
no_deadlock {n} {s} r = main-progress n s (Reach-Inv r) s.main refl

-- When main has returned, every one of the n threads has ended and has been joined, and numunjoin
-- is 0.
pub returned-joined :
    {n : ℕ} {s : System}
    → Reach n s
    → s.main ≡ returned
    → ((i : ℕ) → i < n → (s.workers i ≡ ended) × (s.thread_state i ≡ ts_joined)) × (s.numunjoin ≡ 0)
returned-joined {n} {s} r e =
    let inv = Reach-Inv r in
    let all : (i : ℕ) → i < n → s.thread_state i ≡ ts_joined =
      λ i l. ground (arith, inv.live, le-total unjoined n s.thread_state i l) in
    (
      λ i l. (ground (arith, all i l, inv.paired i l), all i l),
      inv.counted
          ∙ total-eq terminated n 0 s.thread_state (λ i l. ap terminated (all i l))
          ∙ omega arith,
    )
