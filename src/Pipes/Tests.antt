-- ===== src/Pipes/Tests.antt =====
-- A run on two bytes, in which the child reads one of them at a time.
use my_linux_demo.Base.{
  ℕ, ◌-◌, ◌+◌, ◌*◌, ◌≤◌, ◌≡◌, ◌⊎◌, refl, none, true, List, [], ◌∷◌, ◌++◌, map, length, arith,
}
use my_linux_demo.Pipes.{
  ended, System, is_ended, is_gone, split, moved, pushed, read_input, read_answer, parent_step,
  read_request, child_step, the_parent, the_child, step, Reach, start, next,
}
use my_linux_demo.Pipes.Order.{under_way, output-under_way}
use my_linux_demo.Pipes.Ending.{CanStep, run_length, processes_end}

-- `toupper` on small letters
abbrev upper : ℕ → ℕ
upper c = c - 32

abbrev input : List ℕ
input = 97 ∷ 98 ∷ []

-- The answer to the first byte has been printed.
printed_one : (s : System) × Reach 2 upper input s
unfolding step parent_step child_step read_input read_answer read_request pushed moved split
printed_one = (
  _,
  next the_parent 1
      (next the_parent 1
        (next the_child 1
          (next the_child 1 (next the_parent 2 (next the_parent 2 start refl) refl) refl) refl)
        refl)
      refl,
)

-- The parent reads one answer for what it has read, and ends with a byte still under way.
ends_early :
    (s : System) × Reach 2 upper input s
    × (s.parent ≡ ended)
    × (s.output ≡ 65 ∷ [])
    × (under_way upper s ≡ 66 ∷ [])
unfolding step parent_step read_input printed_one
ends_early = (_, next the_parent 1 printed_one.1 refl, refl, refl, refl)

output-under_way_example : printed_one.0.output ++ under_way upper printed_one.0 ≡ map upper input
output-under_way_example = output-under_way printed_one.1

processes_end_example :
    (run_length printed_one.1 ≤ 6 * length input + 2)
    × (CanStep 2 upper printed_one.0
        ⊎ ((is_ended printed_one.0.parent ≡ true) × (is_gone printed_one.0.child ≡ true)))
processes_end_example = processes_end printed_one.1 (omega arith)

-- Pipes of one byte and an input of four: both processes wait for room.
stuck :
    (s : System) × Reach 1 upper (97 ∷ 98 ∷ 99 ∷ 100 ∷ []) s
    × (step 1 upper s the_parent 1 ≡ none)
    × (step 1 upper s the_child 1 ≡ none)
unfolding step parent_step child_step read_input read_answer read_request pushed moved split
stuck = (
  _,
  next the_parent 1
      (next the_child 1
        (next the_child 1
          (next the_parent 1
            (next the_child 1 (next the_parent 1 (next the_parent 4 start refl) refl) refl) refl)
          refl)
        refl)
      refl,
  refl,
  refl,
)
