-- ===== src/Wheel/Tests.antt =====
-- Runs of the time wheel, and the theorems at a wheel of three timers in one slot.
use my_linux_demo.Base.{
  ℕ, ◌<◌, ◌≡◌, refl, ◌==◌, if◌then◌else◌, none, some, [], ◌∷◌, arith, Returns, pos, length,
}
use my_linux_demo.Mem.{null, Mem, node, update}
use my_linux_demo.Wheel.{
  TwTimer, TimeWheel, Alloc, add_timer, delete_timer, tick, ticks_of, slot_of, splice, delete_inner,
  tick_loop, spin, expire_first,
}
use my_linux_demo.Wheel.Spec.{Cells, IsWheel, put_at}
use my_linux_demo.Wheel.Add.{IsUnused, Added, add_timer-Added}
use my_linux_demo.Wheel.Delete.{Deleted, delete_timer-removes}
use my_linux_demo.Wheel.Tick.{Ticked, tick-Ticked}
use my_linux_demo.Wheel.Countdown.{
  Waits, find, countdown, ticks, Called, CalledAfter, ticks-Waits, tick-Called,
  add_timer-CalledAfter,
}

abbrev timer : ℕ → ℕ → TwTimer
timer r u = record { rotation = r; time_slot = 5; cb_func = 7; user_data = u }

abbrev cells : Cells
cells = (1, timer 0 101) ∷ (2, timer 1 102) ∷ (3, timer 0 103) ∷ []

abbrev heap : Mem TwTimer
heap =
    update
      (update (update (λ _. none) 1 (some (node (timer 0 101) 0 2))) 2
        (some (node (timer 1 102) 1 3)))
      3 (some (node (timer 0 103) 2 0))

-- The slots of the wheel.
abbrev rows : ℕ → Cells
rows = put_at (λ _. []) 5 cells

abbrev wheel : TimeWheel
wheel = record { mem = heap; slot = λ i. if i == 5 then 1 else null; cur_slot = 5 }

abbrev alloc : Alloc
alloc = record { address = 4; cb_func = 7; user_data = 104 }

wheel-IsWheel : IsWheel wheel rows
wheel-IsWheel = record {
  cur_lt = omega arith;
  links = λ i r. ground arith;
  distinct = λ i r. ground arith;
  slot_is = λ i r. ground arith;
  marked = λ i r. ground arith;
  apart = λ i j p r q n h. ground arith;
}

new-IsUnused : IsUnused 4 rows
new-IsUnused = record { ne_null = ground arith; outside = λ i r. ground arith }

rows-short : (j : ℕ) → length (rows j) < 4
rows-short j = ground arith

-- The calls of one tick, computed.
tick_run : Returns (λ r. r.1 ≡ (7, 101) ∷ (7, 103) ∷ []) (tick 4 wheel)
unfolding tick tick_loop expire_first delete_inner splice spin
tick_run = refl

-- Where a timeout of 130 ticks leads to.
slot_run : (slot_of wheel (ticks_of 130)) ≡ 15
unfolding slot_of ticks_of
slot_run = refl

add_timer-Added_example : Returns (Added alloc wheel rows 130) (add_timer alloc wheel (pos 130))
add_timer-Added_example = add_timer-Added alloc wheel rows 130 wheel-IsWheel new-IsUnused

delete_timer-removes_example :
    Returns
      (λ w'.
        Deleted wheel rows 5 ((1, timer 0 101) ∷ []) (2, timer 1 102) ((3, timer 0 103) ∷ []) w')
      (delete_timer wheel 2)
delete_timer-removes_example =
    delete_timer-removes wheel rows 5 ((1, timer 0 101) ∷ []) 2 (timer 1 102)
      ((3, timer 0 103) ∷ []) wheel-IsWheel (omega arith) refl

tick-Ticked_example : Returns (Ticked wheel rows) (tick 4 wheel)
tick-Ticked_example = tick-Ticked 4 wheel rows wheel-IsWheel (omega arith)

second-Waits : Waits 4 5 2 (7, 102) 60 wheel
unfolding find countdown
second-Waits = record {
  cells = rows;
  timer = timer 1 102;
  wheel = wheel-IsWheel;
  in_range = omega arith;
  found = refl;
  calls_back = refl;
  counts = refl;
  fits = rows-short;
}

first-Waits : Waits 4 5 1 (7, 101) 0 wheel
unfolding find countdown
first-Waits = record {
  cells = rows;
  timer = timer 0 101;
  wheel = wheel-IsWheel;
  in_range = omega arith;
  found = refl;
  calls_back = refl;
  counts = refl;
  fits = rows-short;
}

countdown_runs : Returns (Waits 4 5 2 (7, 102) 20) (ticks 4 40 wheel)
countdown_runs = ticks-Waits 40 20 4 5 2 (7, 102) wheel second-Waits

wheel_calls : Returns (λ r. Called 1 (7, 101) r) (tick 4 wheel)
wheel_calls = tick-Called 4 5 1 (7, 101) wheel first-Waits

add_timer-CalledAfter_example :
    Returns (λ r. CalledAfter 5 (ticks_of 130) 4 (7, 104) r.0) (add_timer alloc wheel (pos 130))
add_timer-CalledAfter_example =
    add_timer-CalledAfter alloc wheel rows 130 5 wheel-IsWheel new-IsUnused
      λ j. omega (arith, rows-short j)
