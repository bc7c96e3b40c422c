-- ===== src/TimerList/Tests.antt =====
-- Runs of the timer list, and the theorems at a list of three timers.
use my_linux_demo.Base.{ℕ, List, ◌>>=◌, ◌≡◌, refl, Option, none, some, [], ◌∷◌, arith, Returns}
use my_linux_demo.Mem.{Mem, node, update}
use my_linux_demo.Mem.Split.{SameOutside}
use my_linux_demo.TimerList.{
  Timer, TimeList, add_timer, adjust_timer, del_timer, tick, destroy, add_loop, add_timer_from,
  link_first, link_last, link_between, tick_loop, drop_head, with_mem,
}
use my_linux_demo.TimerList.Spec.{Cells, IsList, insert}
use my_linux_demo.TimerList.Insert.{IsFresh, add_timer-insert}
use my_linux_demo.TimerList.Adjust.{Adjusted, adjust_timer-insert}
use my_linux_demo.TimerList.Delete.{Deleted, del_timer-removes}
use my_linux_demo.TimerList.Order.{Swept, tick-expired, Holds, add_timer-Holds, adjust_timer-Holds}
use my_linux_demo.TimerList.Destroy.{Destroyed, destroy-Freed}

abbrev timer : ℕ → ℕ → Timer
timer e u = record { expire = e; cb_func = 7; user_data = u }

abbrev cells : Cells
cells = (1, timer 10 101) ∷ (2, timer 20 102) ∷ (3, timer 30 103) ∷ []

-- Three timers in a list, and a new one at the address 4.
abbrev heap : Mem Timer
heap =
    update
      (update
        (update (update (λ _. none) 1 (some (node (timer 10 101) 0 2))) 2
          (some (node (timer 20 102) 1 3)))
        3 (some (node (timer 30 103) 2 0)))
      4 (some (node (timer 20 104) 0 0))

abbrev list : TimeList
list = record { mem = heap; head = 1; tail = 3 }

list-IsList : IsList list cells
list-IsList = record {
  links = (ground arith, refl, (ground arith, refl, (ground arith, refl, tt)));
  distinct = (refl, (refl, (refl, tt)));
  head_is = refl;
  tail_is = refl;
}

new-IsFresh : IsFresh list.mem 4 (timer 20 104) cells
new-IsFresh = record { ne_null = ground arith; held = refl; outside = refl }

add_timer-insert_example :
    Returns
      (λ s'.
        IsList s' (insert (4, timer 20 104) cells)
        × SameOutside ((4, timer 20 104) ∷ cells) list.mem s'.mem)
      (add_timer 4 list 4)
add_timer-insert_example =
    add_timer-insert 4 list 4 (timer 20 104) cells list-IsList new-IsFresh (omega arith)

added-Holds : Returns (Holds ((4, timer 20 104) ∷ cells)) (add_timer 4 list 4)
added-Holds =
    add_timer-Holds 4 list 4 (timer 20 104) cells list-IsList (omega arith) new-IsFresh
      (omega arith)

-- The first timer is put off to the time 25.
abbrev put_off : TimeList
put_off = with_mem list (update heap 1 (some (node (timer 25 101) 0 2)))

abbrev behind : Cells
behind = (2, timer 20 102) ∷ (3, timer 30 103) ∷ []

put_off-IsList : IsList put_off ((1, timer 25 101) ∷ behind)
put_off-IsList = record {
  links = (ground arith, refl, (ground arith, refl, (ground arith, refl, tt)));
  distinct = (refl, (refl, (refl, tt)));
  head_is = refl;
  tail_is = refl;
}

adjust_timer-insert_example :
    Returns (Adjusted put_off [] (1, timer 25 101) behind) (adjust_timer 3 put_off 1)
adjust_timer-insert_example =
    adjust_timer-insert 3 put_off [] 1 (timer 25 101) behind put_off-IsList (omega arith)

put_off-Holds : Returns (Holds ((1, timer 25 101) ∷ behind)) (adjust_timer 3 put_off 1)
put_off-Holds =
    adjust_timer-Holds 3 put_off [] 1 (timer 25 101) behind put_off-IsList (omega arith) tt
      (omega arith)

del_timer-removes_example :
    Returns
      (λ s'. Deleted list ((1, timer 10 101) ∷ []) (2, timer 20 102) ((3, timer 30 103) ∷ []) s')
      (del_timer list 2)
del_timer-removes_example =
    del_timer-removes list ((1, timer 10 101) ∷ []) 2 (timer 20 102) ((3, timer 30 103) ∷ [])
      list-IsList

tick-expired_example : Returns (λ r. Swept list 20 cells r) (tick 4 20 list)
tick-expired_example = tick-expired 4 20 list cells list-IsList (omega arith) (omega arith)

destroy-Freed_example : Returns (λ s'. Destroyed list.mem cells s') (destroy 4 list)
destroy-Freed_example = destroy-Freed 4 list cells list-IsList (omega arith)

-- The run of an add and a tick: the calls are those of the timers 1, 2 and 4.
abbrev run : Option (TimeList × List (ℕ × ℕ))
run = do s ← add_timer 4 list 4; tick 5 20 s

run_calls : Returns (λ r. r.1 ≡ (7, 101) ∷ (7, 102) ∷ (7, 104) ∷ []) run
unfolding add_timer add_timer_from add_loop link_first link_last link_between tick tick_loop
    drop_head
run_calls = refl
