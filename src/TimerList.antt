-- ===== src/TimerList.antt =====
-- `sort_time_list` of unp/high_performance/list_timer.h: the ascending doubly linked list of timers.
-- Every method takes the list object with its heap and returns the new one; `none` is a fault.
-- A loop runs on fuel, one unit for a node that it visits.
pub mod Spec
pub mod Context
pub mod Insert
pub mod Adjust
pub mod Delete
pub mod Order
pub mod Tick
pub mod Destroy
pub mod Tests
use my_linux_demo.Base.{
  ℕ, zero, suc, Bool, true, false, ◌&&◌, Option, none, some, List, [], ◌∷◌, ◌++◌, ◌>>=◌, ltb, ◌==◌,
  if◌then◌else◌,
}
use my_linux_demo.Mem.{Ptr, null, Node, Mem, load, set_prev, set_next, release}

-- What a `util_timer` holds besides its links: the absolute time, the callback and its argument.
pub record Timer : Type 0 where
  pub expire : ℕ
  pub cb_func : ℕ
  pub user_data : ℕ

pub record TimeList : Type 0 where
  pub mem : Mem Timer
  pub head : Ptr
  pub tail : Ptr

abbrev pub with_mem : TimeList → Mem Timer → TimeList
with_mem s m = record s { mem = m }

-- The calls `cb_func(user_data)` that `tick` makes, in order.
abbrev pub Call : Type 0
Call = ℕ × ℕ

-- The body of the `if` in the private `add_timer`: the new node goes between `prev` and `tmp`.
unfoldable pub link_between : TimeList → Ptr → Ptr → Ptr → Option TimeList
link_between s timer prev tmp = do
  m ← set_next s.mem prev timer
  m ← set_next m timer tmp
  m ← set_prev m tmp timer
  m ← set_prev m timer prev
  some (with_mem s m)

-- The code behind the loop, for `tmp == NULL`.
unfoldable pub link_last : TimeList → Ptr → Ptr → Option TimeList
link_last s timer prev = do
  m ← set_next s.mem prev timer
  m ← set_prev m timer prev
  m ← set_next m timer null
  some (record { mem = m; head = s.head; tail = timer })

unfoldable pub add_loop : ℕ → TimeList → (timer prev tmp : Ptr) → Option TimeList
add_loop zero s timer prev tmp = none
add_loop (suc fuel) s timer prev tmp = if tmp == null then link_last s timer prev else do
  t ← load s.mem timer
  n ← load s.mem tmp
  let rest = add_loop fuel s timer tmp n.next
  if ltb t.payload.expire n.payload.expire then link_between s timer prev tmp else rest

-- `add_timer(timer, list_head)`
unfoldable pub add_timer_from : ℕ → TimeList → (timer list_head : Ptr) → Option TimeList
add_timer_from fuel s timer list_head = do
  n ← load s.mem list_head
  add_loop fuel s timer list_head n.next

-- The new node becomes the head.
unfoldable pub link_first : TimeList → Ptr → Option TimeList
link_first s timer = do
  m ← set_next s.mem timer s.head
  m ← set_prev m s.head timer
  some (record { mem = m; head = timer; tail = s.tail })

-- `add_timer(timer)`
unfoldable pub add_timer : ℕ → TimeList → Ptr → Option TimeList
add_timer fuel s timer =
    if timer == null
    then some s
    else if s.head == null
    then some (record { mem = s.mem; head = timer; tail = timer })
    else do
      t ← load s.mem timer
      h ← load s.mem s.head
      if ltb t.payload.expire h.payload.expire
          then link_first s timer
          else add_timer_from fuel s timer s.head

-- `timer == head` in `adjust_timer`: the head is taken out and inserted behind the new head.
unfoldable pub adjust_head : ℕ → TimeList → Ptr → Option TimeList
adjust_head fuel s timer = do
  h ← load s.mem s.head
  m ← set_prev s.mem h.next null
  m ← set_next m timer null
  add_timer_from fuel (record { mem = m; head = h.next; tail = s.tail }) timer h.next

-- The other branch: the node is taken out and inserted behind its successor.
unfoldable pub adjust_inner : ℕ → TimeList → Ptr → Option TimeList
adjust_inner fuel s timer = do
  t ← load s.mem timer
  m ← set_next s.mem t.prev t.next
  t' ← load m timer
  m' ← set_prev m t'.next t'.prev
  t'' ← load m' timer
  add_timer_from fuel (with_mem s m') timer t''.next

unfoldable pub adjust_move : ℕ → TimeList → Ptr → Option TimeList
adjust_move fuel s timer =
    if timer == s.head then adjust_head fuel s timer else adjust_inner fuel s timer

unfoldable pub adjust_timer : ℕ → TimeList → Ptr → Option TimeList
adjust_timer fuel s timer = if timer == null then some s else do
  t ← load s.mem timer
  if t.next == null then some s else do
    n ← load s.mem t.next
    if ltb t.payload.expire n.payload.expire then some s else adjust_move fuel s timer

unfoldable pub del_only : TimeList → Ptr → Option TimeList
del_only s timer = do m ← release s.mem timer; some (record { mem = m; head = null; tail = null })

unfoldable pub del_head : TimeList → Ptr → Option TimeList
del_head s timer = do
  h ← load s.mem s.head
  m ← set_prev s.mem h.next null
  m ← release m timer
  some (record { mem = m; head = h.next; tail = s.tail })

unfoldable pub del_tail : TimeList → Ptr → Option TimeList
del_tail s timer = do
  l ← load s.mem s.tail
  m ← set_next s.mem l.prev null
  m ← release m timer
  some (record { mem = m; head = s.head; tail = l.prev })

-- The last branch of `del_timer`, which unlinks the node and does not delete it.
unfoldable pub del_inner : TimeList → Ptr → Option TimeList
del_inner s timer = do
  t ← load s.mem timer
  m ← set_prev s.mem t.next t.prev
  t' ← load m timer
  m' ← set_next m t'.prev t'.next
  some (with_mem s m')

unfoldable pub del_timer : TimeList → Ptr → Option TimeList
del_timer s timer =
    if timer == null
    then some s
    else if (timer == s.head) && (timer == s.tail)
    then del_only s timer
    else if timer == s.head
    then del_head s timer
    else if timer == s.tail
    then del_tail s timer
    else del_inner s timer

-- The part of `tick`'s loop that takes the expired head `tmp` out: `head = tmp->next`, the new
-- head's `prev`, and `delete tmp`.
unfoldable pub drop_head : TimeList → Ptr → Option TimeList
drop_head s tmp = do
  t ← load s.mem tmp
  m ← (if t.next == null then some s.mem else set_prev s.mem t.next null)
  m ← release m tmp
  some (record { mem = m; head = t.next; tail = s.tail })

-- The loop of `tick`; `tmp` is the head in every round. It returns the calls that it made.
unfoldable pub tick_loop : ℕ → (cur : ℕ) → TimeList → Option (TimeList × List Call)
tick_loop zero cur s = none
tick_loop (suc fuel) cur s = if s.head == null then some (s, []) else do
  t ← load s.mem s.head
  let rest = do
    s' ← drop_head s s.head
    (s'', calls) ← tick_loop fuel cur s'
    some (s'', (t.payload.cb_func, t.payload.user_data) ∷ calls)
  if ltb cur t.payload.expire then some (s, []) else rest

-- `cur` is what `time(NULL)` returns. The callback is taken to leave the timers alone.
unfoldable pub tick : ℕ → (cur : ℕ) → TimeList → Option (TimeList × List Call)
tick fuel cur s = if s.head == null then some (s, []) else tick_loop fuel cur s

-- The destructor.
unfoldable pub destroy : ℕ → TimeList → Option TimeList
destroy zero s = none
destroy (suc fuel) s = if s.head == null then some s else do
  t ← load s.mem s.head
  m ← release s.mem s.head
  destroy fuel (record { mem = m; head = t.next; tail = s.tail })
