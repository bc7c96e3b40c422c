-- ===== src/TimerList/Spec.antt =====
-- What a `sort_time_list` stands for: the sequence of its timers, with their addresses.
use my_linux_demo.Base.{◌≤◌, ◌≡◌, List, [], ◌∷◌, ltb, if◌then◌else◌, All}
use my_linux_demo.Mem.{Ptr, null}
use my_linux_demo.Mem.Links.{first, last, Distinct, Links}
use my_linux_demo.TimerList.{Timer, TimeList}

abbrev pub Cells : Type 0
Cells = List (Ptr × Timer)

-- `tick` leaves `tail` dangling when it removes the last node, and nothing reads it then.
abbrev pub TailIs : Ptr → Cells → Type 0
TailIs t [] = Unit
TailIs t ((a, x) ∷ xs) = t ≡ last xs a

pub record IsList (s : TimeList) (xs : Cells) : Type 0 where
  pub links : Links s.mem null xs null
  pub distinct : Distinct xs
  pub head_is : s.head ≡ first xs null
  pub tail_is : TailIs s.tail xs

-- Behind the timers that do not expire later.
unfoldable pub insert : Ptr × Timer → Cells → Cells
insert c [] = c ∷ []
insert c (x ∷ xs) = if ltb c.1.expire x.1.expire then c ∷ x ∷ xs else x ∷ insert c xs

abbrev pub IsSorted : Cells → Type 0
IsSorted [] = Unit
IsSorted (x ∷ xs) = All (λ y. x.1.expire ≤ y.1.expire) xs × IsSorted xs
