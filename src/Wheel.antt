-- ===== src/Wheel.antt =====
-- `time_wheel` of unp/high_performance/timer_wheel.h: sixty doubly linked lists of timers, of which
-- one is worked off in every tick. Every method takes the wheel with its heap and returns the new
-- one; `none` is a fault. The loop of `tick` runs on fuel, one unit for a node that it visits.
pub mod Spec
pub mod Splice
pub mod Replace
pub mod Add
pub mod Delete
pub mod Sweep
pub mod Tick
pub mod Countdown
pub mod Tests
use my_linux_demo.Base.{
  ℕ, zero, suc, ◌+◌, ◌-◌, ◌*◌, ◌/◌, ◌%◌, Bool, true, false, Option, none, some, List, [], ◌∷◌,
  ◌>>=◌, ltb, ◌==◌, if◌then◌else◌, ℤ, pos, negsuc,
}
use my_linux_demo.Mem.{Ptr, null, Node, Mem, node, update, load, set_prev, set_next, release}

-- `N`, the number of slots
abbrev pub slots : ℕ
slots = 60

-- `SI`, the seconds between two ticks
abbrev pub interval : ℕ
interval = 1

-- What a `tw_timer` holds besides its links.
pub record TwTimer : Type 0 where
  pub rotation : ℕ
  pub time_slot : ℕ
  pub cb_func : ℕ
  pub user_data : ℕ

-- `slot` is read below `slots` only.
pub record TimeWheel : Type 0 where
  pub mem : Mem TwTimer
  pub slot : ℕ → Ptr
  pub cur_slot : ℕ

-- The calls `cb_func(user_data)` that `tick` makes, in order.
abbrev pub Call : Type 0
Call = ℕ × ℕ

abbrev pub set_slot : (ℕ → Ptr) → ℕ → Ptr → ℕ → Ptr
set_slot f i p j = if j == i then p else f j

abbrev pub get_slot : TimeWheel → ℕ → Option Ptr
get_slot w i = if ltb i slots then some (w.slot i) else none

-- What `new` returns, and what it finds in the two fields that the constructor leaves alone.
pub record Alloc : Type 0 where
  pub address : Ptr
  pub cb_func : ℕ
  pub user_data : ℕ

-- The constructor.
unfoldable pub tw_timer : Alloc → (rot ts : ℕ) → Node TwTimer
tw_timer a rot ts =
    node (record { rotation = rot; time_slot = ts; cb_func = a.cb_func; user_data = a.user_data })
      null null

unfoldable pub ticks_of : ℕ → ℕ
ticks_of timeout = if ltb timeout interval then 1 else timeout / interval

-- The end of `add_timer`: the new node goes to the front of its slot.
unfoldable pub push_slot : TimeWheel → ℕ → Ptr → Option TimeWheel
push_slot w ts timer = do
  first ← get_slot w ts
  if first == null then some (record w { slot = set_slot w.slot ts timer }) else do
    m ← set_next w.mem timer first
    m ← set_prev m first timer
    some (record { mem = m; slot = set_slot w.slot ts timer; cur_slot = w.cur_slot })

unfoldable pub slot_of : TimeWheel → ℕ → ℕ
slot_of w ticks = (w.cur_slot + ticks % slots) % slots

-- On a negative timeout the source returns no value.
unfoldable pub add_timer : Alloc → TimeWheel → ℤ → Option (TimeWheel × Option Ptr)
add_timer a w (negsuc n) = some (w, none)
add_timer a w (pos timeout) = do
  let ticks = ticks_of timeout
  let ts = slot_of w ticks
  let m = update w.mem a.address (some (tw_timer a (ticks / slots) ts))
  w' ← push_slot (record w { mem = m }) ts a.address
  some (w', some a.address)

-- A node that is not the first of its slot: `prev->next = next`, `next->prev = prev`, `delete`.
unfoldable pub splice : Mem TwTimer → Ptr → Option (Mem TwTimer)
splice m timer = do
  t ← load m timer
  m ← set_next m t.prev t.next
  m ← (if t.next == null then some m else set_prev m t.next t.prev)
  release m timer

-- The first node of a slot, in `delete_timer`.
unfoldable pub delete_first : TimeWheel → ℕ → Ptr → Option TimeWheel
delete_first w ts timer = do
  first ← get_slot w ts
  t ← load w.mem first
  m ← (if t.next == null then some w.mem else set_prev w.mem t.next null)
  m ← release m timer
  some (record { mem = m; slot = set_slot w.slot ts t.next; cur_slot = w.cur_slot })

unfoldable pub delete_inner : TimeWheel → Ptr → Option TimeWheel
delete_inner w timer = do m ← splice w.mem timer; some (record w { mem = m })

unfoldable pub delete_timer : TimeWheel → Ptr → Option TimeWheel
delete_timer w timer = if timer == null then some w else do
  t ← load w.mem timer
  first ← get_slot w t.payload.time_slot
  if timer == first then delete_first w t.payload.time_slot timer else delete_inner w timer

-- A timer with rounds left, in `tick`.
unfoldable pub spin : TimeWheel → Ptr → Option TimeWheel
spin w tmp = do
  t ← load w.mem tmp
  let p = t.payload
  let p' = record p { rotation = p.rotation - 1 }
  some (record w { mem = update w.mem tmp (some (record t { payload = p' })) })

-- An expired timer that is the first of its slot, in `tick`.
unfoldable pub expire_first : TimeWheel → Ptr → Option TimeWheel
expire_first w tmp = do
  t ← load w.mem tmp
  m ← release w.mem tmp
  m ← (if t.next == null then some m else set_prev m t.next null)
  some (record { mem = m; slot = set_slot w.slot w.cur_slot t.next; cur_slot = w.cur_slot })

-- The loop of `tick`. It returns the calls that it made.
unfoldable pub tick_loop : ℕ → TimeWheel → (tmp : Ptr) → Option (TimeWheel × List Call)
tick_loop zero w tmp = none
tick_loop (suc fuel) w tmp = if tmp == null then some (w, []) else do
  t ← load w.mem tmp
  first ← get_slot w w.cur_slot
  w' ←
      (if ltb 0 t.payload.rotation
        then spin w tmp
        else if tmp == first
        then expire_first w tmp
        else delete_inner w tmp)
  (w'', calls) ← tick_loop fuel w' t.next
  some (
    w'',
    if ltb 0 t.payload.rotation then calls else (t.payload.cb_func, t.payload.user_data) ∷ calls,
  )

-- The callback is taken to leave the timers alone.
unfoldable pub tick : ℕ → TimeWheel → Option (TimeWheel × List Call)
tick fuel w = do
  first ← get_slot w w.cur_slot
  (w', calls) ← tick_loop fuel w first
  some (record w' { cur_slot = (w'.cur_slot + 1) % slots }, calls)
