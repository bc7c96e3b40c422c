-- ===== src/ArgPipe/Tests.antt =====
-- A run on two bytes, which the child reads one by one.
use my_linux_demo.Base.{ℕ, ◌+◌, ◌*◌, ◌≤◌, ◌≡◌, ◌⊎◌, refl, List, [], ◌∷◌, ◌++◌, length}
use my_linux_demo.Pipes.{split}
use my_linux_demo.ArgPipe.{
  bye, System, writing, ended, printing, finished, parent_step, read_pipe, child_step, the_parent,
  the_child, step, Reach, start, next,
}
use my_linux_demo.ArgPipe.Flow.{under_way, GetsOn, printed-under_way}

abbrev argument : List ℕ
argument = b'h' ∷ b'i' ∷ []

abbrev half : System
half = record { parent = writing []; child = printing (b'h' ∷ []); pipe = b'i' ∷ []; output = [] }

half-Reach : Reach argument 2 half
unfolding step parent_step child_step read_pipe split
half-Reach = next the_child 1 (next the_parent 2 start refl) refl

abbrev over : System
over = record { parent = ended; child = finished; pipe = []; output = argument ++ bye }

over-Reach : Reach argument 8 over
unfolding step parent_step child_step read_pipe split
over-Reach =
    next the_parent 1
      (next the_child 1
        (next the_parent 1
          (next the_child 1 (next the_child 1 (next the_child 1 half-Reach refl) refl) refl) refl)
        refl)
      refl

printed-under_way_example :
    (half.output ++ under_way half ≡ argument ++ bye)
    × (2 ≤ 3 * length argument + 3)
    × (GetsOn half ⊎ ((half.parent ≡ ended) × (half.child ≡ finished)))
printed-under_way_example = printed-under_way argument 2 half half-Reach
