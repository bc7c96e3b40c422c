-- ===== src/Semaphore/Progress.antt =====
-- The threads do not block each other for ever, and every run ends.
use my_linux_demo.Base.{
  ℕ, suc, ◌+◌, ◌-◌, ◌*◌, ◌<◌, ◌≡◌, ◌⊎◌, refl, some, arith, ltb, Option-cases, Bool-cases, inl, inr,
  assign, total, total-assign, total-eq, total-witness, le-total,
}
use my_linux_demo.Semaphore.{
  Shared, Pc, head, entered, loaded, stored, finished, thread_func, System, init, step, Reach,
  start, next,
}
use my_linux_demo.Semaphore.Counting.{inside, IsInLoop, Inv, Reach-Inv, all_finished-global}

-- The accesses that a thread has before it.
abbrev pub work : ℕ → Pc → ℕ
work loop (head j) = 4 * (loop - j) + 1
work loop (entered j) = 4 * (loop - j)
work loop (loaded j loc) = 4 * (loop - j) - 1
work loop (stored j) = 4 * (loop - j) - 2
work loop finished = 0

thread_func-work :
    (loop : ℕ) (m m' : Shared) (p p' : Pc)
    → IsInLoop loop m p
    → thread_func loop m p ≡ some (m', p')
    → work loop p' + 1 ≡ work loop p
unfolding thread_func
thread_func-work loop m m' (head j) p' b h = ground arith
thread_func-work loop m m' (entered j) p' b h = ground arith
thread_func-work loop m m' (loaded j loc) p' b h = ground arith
thread_func-work loop m m' (stored j) p' b h = ground arith
thread_func-work loop m m' finished p' b h = cc

step-work :
    (n loop : ℕ) (s t : System) (i : ℕ)
    → Inv n loop s.shared s.pc
    → i < n
    → step loop s i ≡ some t
    → total (work loop) n t.pc + 1 ≡ total (work loop) n s.pc
unfolding step
step-work n loop s t i inv l h = elim (Option-cases (thread_func loop s.shared (s.pc i))) [
  | inl stuck ↦ cc
  | inr ((m, p), e) ↦ ground (
    arith,
    thread_func-work loop s.shared m (s.pc i) p (inv.in_loop i l) e,
    total-assign (work loop) n s.pc i p l,
  )
]

-- The steps of a run.
abbrev pub run_length : {n loop : ℕ} {s : System} → Reach n loop s → ℕ
run_length start = 0
run_length (next i r l e) = suc (run_length r)

-- The steps of a run from the start to a reachable state, and the steps that the n threads still
-- have to make, are n * (4 * loop + 1) together: no run is longer.
pub run_length-work :
    {n loop : ℕ} {s : System} (r : Reach n loop s)
    → run_length r + total (work loop) n s.pc ≡ n * (4 * loop + 1)
run_length-work {n} {loop} start =
    omega (arith, total-eq (work loop) n (4 * loop + 1) init.pc (λ i l. omega arith))
run_length-work {n} {loop} (next {s} {t} i r l e) =
    omega (arith, run_length-work r, step-work n loop s t i (Reach-Inv r) l e)

abbrev pub CanStep : (n loop : ℕ) → System → Type 0
CanStep n loop s = (i : ℕ) × (i < n) × (t : System) × (step loop s i ≡ some t)

inside-moves :
    (loop : ℕ) (m : Shared) (p : Pc)
    → 0 < inside p
    → (m' : Shared) × (p' : Pc) × (thread_func loop m p ≡ some (m', p'))
unfolding thread_func
inside-moves loop m (head j) h = absurd (omega arith)
inside-moves loop m (entered j) h = (_, _, refl)
inside-moves loop m (loaded j loc) h = (_, _, refl)
inside-moves loop m (stored j) h = (_, _, refl)
inside-moves loop m finished h = absurd (omega arith)

free-moves :
    (loop : ℕ) (m : Shared) (p : Pc)
    → 0 < m.sem
    → 0 < work loop p
    → (m' : Shared) × (p' : Pc) × (thread_func loop m p ≡ some (m', p'))
unfolding thread_func
free-moves loop m (head j) f h = elim (Bool-cases (ltb j loop)) [
  | inl in_loop ↦ (record m { sem = m.sem - 1 }, entered j, ground arith)
  | inr behind ↦ (m, finished, ground arith)
]
free-moves loop m (entered j) f h = (_, _, refl)
free-moves loop m (loaded j loc) f h = (_, _, refl)
free-moves loop m (stored j) f h = (_, _, refl)
free-moves loop m finished f h = absurd (omega arith)

moves-CanStep :
    (n loop : ℕ) (s : System) (i : ℕ)
    → i < n
    → (m' : Shared) × (p' : Pc) × (thread_func loop s.shared (s.pc i) ≡ some (m', p'))
    → CanStep n loop s
unfolding step
moves-CanStep n loop s i l (m, p, e) =
    (i, l, record { shared = m; pc = assign s.pc i p }, rw e refl)

work_left :
    (n loop : ℕ) (s : System)
    → Inv n loop s.shared s.pc
    → 0 < total (work loop) n s.pc
    → CanStep n loop s
work_left n loop s inv h = elim (Bool-cases (ltb 0 s.shared.sem)) [
  | inl free ↦
      let (i, l, w) = total-witness (work loop) n s.pc h in
      moves-CanStep n loop s i l (free-moves loop s.shared (s.pc i) (ground arith) w)
  | inr taken ↦
      let (i, l, w) = total-witness inside n s.pc (ground (arith, inv.guarded)) in
      moves-CanStep n loop s i l (inside-moves loop s.shared (s.pc i) w)
]

no_work-finished :
    (loop : ℕ) (m : Shared) (p : Pc) → IsInLoop loop m p → work loop p ≡ 0 → p ≡ finished
no_work-finished loop m (head j) b h = absurd (omega arith)
no_work-finished loop m (entered j) b h = absurd (omega arith)
no_work-finished loop m (loaded j loc) b h = absurd (omega arith)
no_work-finished loop m (stored j) b h = absurd (omega arith)
no_work-finished loop m finished b h = refl

-- In every reachable state some thread can step, or all n threads have finished and global is n *
-- loop.
pub run_ends :
    {n loop : ℕ} {s : System}
    → Reach n loop s
    → CanStep n loop s ⊎ (((i : ℕ) → i < n → s.pc i ≡ finished) × (s.shared.global ≡ n * loop))
run_ends {n} {loop} {s} r = elim (Bool-cases (ltb 0 (total (work loop) n s.pc))) [
  | inl left ↦ inl (work_left n loop s (Reach-Inv r) (ground arith))
  | inr done ↦
      let f : (i : ℕ) → i < n → s.pc i ≡ finished = λ i l.
        no_work-finished loop s.shared (s.pc i) ((Reach-Inv r).in_loop i l)
          (ground (arith, le-total (work loop) n s.pc i l)) in
      inr (f, all_finished-global r f)
]
