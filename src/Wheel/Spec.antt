-- ===== src/Wheel/Spec.antt =====
-- What a `time_wheel` stands for: the sequence of timers in each slot, with their addresses.
use my_linux_demo.Base.{
  ℕ, ◌-◌, ◌<◌, ◌≡◌, ◌≢◌, true, false, List, [], ◌∷◌, ◌==◌, ltb, if◌then◌else◌, All,
}
use my_linux_demo.Mem.{Ptr, null}
use my_linux_demo.Mem.Links.{first, has, Distinct, Links}
use my_linux_demo.Wheel.{TwTimer, TimeWheel, Call, slots}

abbrev pub Cells : Type 0
Cells = List (Ptr × TwTimer)

-- The timers of the slot `i` are `xs i`, every one marked with its slot, and no node is in two
-- slots.
pub record IsWheel (w : TimeWheel) (xs : ℕ → Cells) : Type 0 where
  pub cur_lt : w.cur_slot < slots
  pub links : (i : ℕ) → i < slots → Links w.mem null (xs i) null
  pub distinct : (i : ℕ) → i < slots → Distinct (xs i)
  pub slot_is : (i : ℕ) → i < slots → w.slot i ≡ first (xs i) null
  pub marked : (i : ℕ) → i < slots → All (λ c. c.1.time_slot ≡ i) (xs i)
  pub apart :
      (i j : ℕ) (p : Ptr)
      → i < slots
      → j < slots
      → i ≢ j
      → has p (xs i) ≡ true
      → has p (xs j) ≡ false

-- One slot of the wheel is replaced.
abbrev pub put_at : (ℕ → Cells) → ℕ → Cells → ℕ → Cells
put_at f i xs j = if j == i then xs else f j

-- A visit of `tick` to a slot: the timers without rounds left are called back ...
unfoldable pub fired : Cells → Cells
fired [] = []
fired (c ∷ xs) = if ltb 0 c.1.rotation then fired xs else c ∷ fired xs

abbrev pub turned : TwTimer → TwTimer
turned t = record t { rotation = t.rotation - 1 }

-- ... and the others stay, with one round less.
unfoldable pub kept : Cells → Cells
kept [] = []
kept ((a, t) ∷ xs) = if ltb 0 t.rotation then (a, turned t) ∷ kept xs else kept xs

abbrev pub call_of : Ptr × TwTimer → Call
call_of c = (c.1.cb_func, c.1.user_data)
