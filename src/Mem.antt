-- ===== src/Mem.antt =====
-- The heap that holds the nodes of a doubly linked list: what `new`, `delete`, `p->prev` and
-- `p->next` do in the timer containers under unp/high_performance. `A` is what a node holds
-- besides its two links. Address 0 is NULL.
pub mod Links
pub mod Split
use my_linux_demo.Base.{ℕ, Bool, Option, none, some, ◌>>=◌, ◌==◌, if◌then◌else◌}

abbrev pub Ptr : Type 0
Ptr = ℕ

abbrev pub null : Ptr
null = 0

pub record Node (A : Type 0) : Type 0 where
  pub payload : A
  pub prev : Ptr
  pub next : Ptr

abbrev pub Mem : Type 0 → Type 0
Mem A = Ptr → Option (Node A)

module _ {A : Type 0} where
  abbrev pub node : A → Ptr → Ptr → Node A
  node x p q = record { payload = x; prev = p; next = q }

  abbrev pub update : Mem A → Ptr → Option (Node A) → Mem A
  update m p c q = if q == p then c else m q

  -- A read through NULL or through an address with no node is a fault.
  abbrev pub load : Mem A → Ptr → Option (Node A)
  load m p = if p == null then none else m p

  abbrev pub set_prev : Mem A → Ptr → Ptr → Option (Mem A)
  set_prev m p q = do n ← load m p; some (update m p (some (record n { prev = q })))

  abbrev pub set_next : Mem A → Ptr → Ptr → Option (Mem A)
  set_next m p q = do n ← load m p; some (update m p (some (record n { next = q })))

  -- `delete p`
  abbrev pub release : Mem A → Ptr → Option (Mem A)
  release m p = do _ ← load m p; some (update m p none)
