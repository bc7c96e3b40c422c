-- ===== src/Semaphore/Tests.antt =====
-- Runs of the counting threads, and the theorems at such runs.
use my_linux_demo.Base.{ℕ, ◌+◌, ◌<◌, ◌≡◌, ◌⊎◌, refl, none, arith, assign, total}
use my_linux_demo.Semaphore.{
  System, head, entered, loaded, finished, threads, loop_count, thread_func, step, Reach, start,
  next,
}
use my_linux_demo.Semaphore.Counting.{inside_alone, all_finished-global}
use my_linux_demo.Semaphore.Progress.{CanStep, work, run_length, run_length-work, run_ends}

-- Thread 0 has read `global`, and thread 1 cannot enter.
abbrev one_inside : System
one_inside = record {
  shared = record { global = 0; sem = 0 };
  pc = assign (assign (λ i. head 0) 0 (entered 0)) 0 (loaded 0 0);
}

one_inside-Reach : Reach threads loop_count one_inside
unfolding step thread_func
one_inside-Reach = next 0 (next 0 start (omega arith) refl) (omega arith) refl

second_waits : step loop_count one_inside 1 ≡ none
unfolding step thread_func
second_waits = refl

inside_alone_example : ◌≡◌ {A = ℕ} 0 0
inside_alone_example = inside_alone one_inside-Reach 0 0 (omega arith) (omega arith) refl refl

run_ends_example :
    CanStep 2 1000 one_inside
    ⊎ (((i : ℕ) → i < 2 → one_inside.pc i ≡ finished) × (one_inside.shared.global ≡ 2000))
run_ends_example = run_ends one_inside-Reach

run_length-work_example : run_length one_inside-Reach + total (work 1000) 2 one_inside.pc ≡ 8002
run_length-work_example = run_length-work one_inside-Reach

-- Two threads that count to one each, one after the other.
all_done-Reach : (s : System) × Reach 2 1 s × ((i : ℕ) → i < 2 → s.pc i ≡ finished)
unfolding step thread_func
all_done-Reach = (
  _,
  next 1
      (next 1
        (next 1
          (next 1
            (next 1
              (next 0
                (next 0
                  (next 0 (next 0 (next 0 start (omega arith) refl) (omega arith) refl)
                    (omega arith) refl)
                  (omega arith) refl)
                (omega arith) refl)
              (omega arith) refl)
            (omega arith) refl)
          (omega arith) refl)
        (omega arith) refl)
      (omega arith) refl,
  λ i h. ground arith,
)

two_finished : all_done-Reach.0.shared.global ≡ 2
two_finished = all_finished-global all_done-Reach.1 all_done-Reach.2
