-- ===== src/Semaphore/Counting.antt =====
-- One thread at a time is between `sem_wait` and `sem_post`, and no increment is lost.
use mathlib.Core.Path.{subst}
use my_linux_demo.Base.{
  ℕ, ◌+◌, ◌*◌, ◌<◌, ◌≤◌, ◌≡◌, refl, ap, ◌∙◌, some, arith, ◌==◌, Option-cases, inl, inr, Bool-cases,
  ==-eq, ==-ne, assign, total, total-assign, two-le-total, total-eq,
}
use my_linux_demo.Semaphore.{
  Shared, Pc, head, entered, loaded, stored, finished, thread_func, System, init, step, Reach,
  start, next,
}

-- Between `sem_wait` and `sem_post`.
abbrev pub inside : Pc → ℕ
inside (head j) = 0
inside finished = 0
inside p = 1

-- The increments that a thread has made.
abbrev pub made : ℕ → Pc → ℕ
made loop (head j) = j
made loop (entered j) = j
made loop (loaded j loc) = j
made loop (stored j) = j + 1
made loop finished = loop

-- What the locals of a thread say.
abbrev pub IsInLoop : (loop : ℕ) → Shared → Pc → Type 0
IsInLoop loop m (head j) = j ≤ loop
IsInLoop loop m (entered j) = j < loop
IsInLoop loop m (loaded j loc) = (j < loop) × (loc ≡ m.global)
IsInLoop loop m (stored j) = j < loop
IsInLoop loop m finished = Unit

pub record Inv (n loop : ℕ) (m : Shared) (pc : ℕ → Pc) : Type 0 where
  pub guarded : m.sem + total inside n pc ≡ 1
  pub counted : m.global ≡ total (made loop) n pc
  pub in_loop : (i : ℕ) → i < n → IsInLoop loop m (pc i)

module _ (n loop : ℕ) (m : Shared) (pc : ℕ → Pc) (inv : Inv n loop m pc) (i : ℕ) (l : i < n) where
  thread_func-Inv :
      (p : Pc)
      → pc i ≡ p
      → (m' : Shared) (p' : Pc) → thread_func loop m p ≡ some (m', p')
      → Inv n loop m' (assign pc i p')
  unfolding thread_func
  thread_func-Inv (head j) e m' p' h = record {
    guarded = ground (arith, total-assign inside n pc i p' l, inv.guarded);
    counted = ground (arith, total-assign (made loop) n pc i p' l, inv.counted, inv.in_loop i l);
    in_loop = λ k lk. ground (arith, inv.in_loop k lk, inv.in_loop i l);
  }
  thread_func-Inv (entered j) e m' p' h = record {
    guarded = ground (arith, total-assign inside n pc i p' l, inv.guarded);
    counted = ground (arith, total-assign (made loop) n pc i p' l, inv.counted);
    in_loop = λ k lk. ground (arith, inv.in_loop k lk, inv.in_loop i l);
  }
  thread_func-Inv (loaded j loc) e m' p' h = record {
    guarded = ground (arith, total-assign inside n pc i p' l, inv.guarded);
    counted = ground (arith, total-assign (made loop) n pc i p' l, inv.counted, inv.in_loop i l);
    in_loop = λ k lk.
        ground (
          arith,
          inv.in_loop k lk,
          inv.in_loop i l,
          inv.guarded,
          two-le-total inside n pc i k l lk,
        );
  }
  thread_func-Inv (stored j) e m' p' h = record {
    guarded = ground (arith, total-assign inside n pc i p' l, inv.guarded);
    counted = ground (arith, total-assign (made loop) n pc i p' l, inv.counted);
    in_loop = λ k lk. ground (arith, inv.in_loop k lk, inv.in_loop i l);
  }
  thread_func-Inv finished e m' p' h = cc

step-Inv :
    (n loop : ℕ) (s t : System) (i : ℕ)
    → Inv n loop s.shared s.pc
    → i < n
    → step loop s i ≡ some t
    → Inv n loop t.shared t.pc
unfolding step
step-Inv n loop s t i inv l h = elim (Option-cases (thread_func loop s.shared (s.pc i))) [
  | inl stuck ↦ cc
  | inr ((m, p), e) ↦
      let z : record { shared = m; pc = assign s.pc i p } ≡ t = ground arith in
      subst (λ (u : System). Inv n loop u.shared u.pc) z
        (thread_func-Inv n loop s.shared s.pc inv i l (s.pc i) refl m p e)
]

init-Inv : (n loop : ℕ) → Inv n loop init.shared init.pc
init-Inv n loop = record {
  guarded = omega (arith, total-eq inside n 0 init.pc (λ i l. refl));
  counted = omega (arith, total-eq (made loop) n 0 init.pc (λ i l. refl));
  in_loop = λ i l. omega arith;
}

pub Reach-Inv : {n loop : ℕ} {s : System} → Reach n loop s → Inv n loop s.shared s.pc
Reach-Inv {n} {loop} start = init-Inv n loop
Reach-Inv {n} {loop} (next {s} {t} i r l e) = step-Inv n loop s t i (Reach-Inv r) l e

-- In every reachable state of n threads, at most one of them is between sem_wait and sem_post.
pub inside_alone :
    {n loop : ℕ} {s : System}
    → Reach n loop s
    → (i j : ℕ) → i < n
    → j < n
    → inside (s.pc i) ≡ 1
    → inside (s.pc j) ≡ 1
    → i ≡ j
inside_alone {n} {loop} {s} r i j l k a b = elim (Bool-cases (i == j)) [
  | inl e ↦ ==-eq i j e
  | inr d ↦
      absurd
        (omega (arith, (Reach-Inv r).guarded, two-le-total inside n s.pc i j l k (==-ne i j d)))
]

-- When n threads that count to loop each have finished, however their accesses were interleaved,
-- global is n * loop: no increment is lost.
pub all_finished-global :
    {n loop : ℕ} {s : System}
    → Reach n loop s
    → ((i : ℕ) → i < n → s.pc i ≡ finished)
    → s.shared.global ≡ n * loop
all_finished-global {n} {loop} {s} r f =
    (Reach-Inv r).counted ∙ total-eq (made loop) n loop s.pc λ i l. ap (made loop) (f i l)
