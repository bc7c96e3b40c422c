-- ===== src/RwLock/Tests.antt =====
-- Runs of the two threads.
use my_linux_demo.Base.{◌+◌, ◌≤◌, ◌≡◌, refl, [], ◌∷◌, false, Option, ◌>>=◌, some, List}
use my_linux_demo.RwLock.{
  Mode, read, write, System, init, holding, ended, waiting, lock, unlock, thread, Actor, the_main,
  the_son, step, Reach, start, next,
}
use my_linux_demo.RwLock.Invariant.{inside}
use my_linux_demo.RwLock.Value.{done}
use my_linux_demo.RwLock.Changes.{spare, changes_kept}

abbrev run : Mode → Mode → System → List Actor → Option System
run mm sm s [] = some s
run mm sm s (x ∷ xs) = do s' ← step mm sm s x; run mm sm s' xs

-- The modes of the code: main reads `a` before the son writes it, and the son's change is lost.
change_lost :
    run read read init (
      the_main ∷ the_son ∷ the_main ∷ the_son ∷ the_son ∷ the_main ∷ the_son ∷ the_main ∷ the_son
      ∷ the_main ∷ the_son ∷ the_main ∷ [])
    ≡ some (record {
      shared = record { readers = 0; writer = false; a = 0; output = 0 ∷ 0 ∷ [] };
      main = ended;
      son = ended;
    })
unfolding step thread lock unlock
change_lost = refl

-- What the comment of the file shows: main has read `a` for printf and prints it after the son.
as_in_comment :
    run read read init (
      the_main ∷ the_son ∷ the_main ∷ the_main ∷ the_main ∷ the_son ∷ the_son ∷ the_son ∷ the_son
      ∷ the_son ∷ the_main ∷ the_main ∷ [])
    ≡ some (record {
      shared = record { readers = 0; writer = false; a = 1; output = 1 ∷ 0 ∷ [] };
      main = ended;
      son = ended;
    })
unfolding step thread lock unlock
as_in_comment = refl

-- Main has locked, in the modes of the comment, where the son writes.
abbrev one_inside : System
one_inside = record {
  shared = record { readers = 1; writer = false; a = 1; output = [] };
  main = holding;
  son = waiting;
}

one_inside-Reach : Reach read write one_inside
unfolding step thread lock
one_inside-Reach = next the_main start refl

changes_kept_example :
    (one_inside.shared.a + done one_inside.main ≤ 1 + done one_inside.son + spare read write)
    × (1 + done one_inside.son ≤ one_inside.shared.a + done one_inside.main + spare read write)
    × (inside one_inside.main + inside one_inside.son ≤ 1 + spare read write)
changes_kept_example = changes_kept read write one_inside one_inside-Reach
