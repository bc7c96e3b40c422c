-- ===== src/Reaper/Tests.antt =====
-- Runs of `main` with its threads, and the theorems at such runs.
use mathlib.Core.List.{foldl}
use my_linux_demo.Base.{ℕ, ◌<◌, ◌≡◌, ◌⊎◌, inl, inr, refl, Option, none, some, List, [], ◌∷◌, ◌++◌}
use my_linux_demo.Reaper.{
  ts_joined, ended, waits, returned, System, init, Actor, the_main, thread, step, scan, threadfun,
  main_thread_step, Reach, start, next,
}
use my_linux_demo.Reaper.Progress.{CanStep, no_deadlock, returned-joined}

record Run (n : ℕ) : Type 0 where
  last : System
  reach : Reach n last

-- An actor that cannot move leaves the run as it is.
Option-split : (o : Option System) → (o ≡ none) ⊎ ((t : System) × (o ≡ some t))
Option-split none = inl refl
Option-split (some t) = inr (t, refl)

turn : {n : ℕ} → Run n → Actor → Run n
turn {n} r a = elim (Option-split (step n r.last a)) [
  | inl stuck ↦ r
  | inr (t, e) ↦ record { last = t; reach = next a r.reach e }
]

run : (n : ℕ) → List Actor → Run n
run n = foldl turn (record { last = init; reach = start })

abbrev setup : List Actor
setup = the_main ∷ the_main ∷ the_main ∷ the_main ∷ the_main ∷ []

abbrev work : List Actor
work = thread 0 ∷ thread 0 ∷ thread 0 ∷ thread 0 ∷ thread 0 ∷ []

abbrev finish : List Actor
finish = the_main ∷ the_main ∷ the_main ∷ the_main ∷ the_main ∷ the_main ∷ the_main ∷ []

-- `main` waits for its one thread.
waiting_run : (run 1 setup).last.main ≡ waits
unfolding run turn step main_thread_step Option-split
waiting_run = refl

no_deadlock_example : CanStep 1 (run 1 setup).last ⊎ ((run 1 setup).last.main ≡ returned)
no_deadlock_example = no_deadlock (run 1 setup).reach

whole_run : (run 1 (setup ++ work ++ finish)).last.main ≡ returned
unfolding run turn step main_thread_step threadfun scan Option-split
whole_run = refl

returned-joined_example :
    ((i : ℕ)
      → i < 1
      → ((run 1 (setup ++ work ++ finish)).last.workers i ≡ ended)
        × ((run 1 (setup ++ work ++ finish)).last.thread_state i ≡ ts_joined))
    × ((run 1 (setup ++ work ++ finish)).last.numunjoin ≡ 0)
returned-joined_example = returned-joined (run 1 (setup ++ work ++ finish)).reach whole_run
