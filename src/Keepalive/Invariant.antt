-- ===== src/Keepalive/Invariant.antt =====
-- What holds of the server between two events.

use my_linux_demo.Base.{
  ℕ, suc, refl, length, ◌+◌, ◌*◌, ◌≤◌, ◌<◌, ◌≡◌, ◌≢◌, false, [], ◌∷◌, ◌++◌, arith, All, ltb,
  Bool-cases, inl, inr,
}
use my_linux_demo.Mem.{Ptr, null}
use my_linux_demo.Mem.Links.{has}
use my_linux_demo.TimerList.{Timer}
use my_linux_demo.TimerList.Spec.{Cells, IsList, IsSorted, insert}
use my_linux_demo.TimerList.Order.{Until, From-split, From-append, waiting}
use my_linux_demo.Keepalive.{
  Server, timeslot, fd_limit, set_user, Event, connect, signalled, readable, other,
}

-- The timer is that of its client, whose entry lies within `users`.
abbrev pub IsOwned : (user_timer user_sockfd : ℕ → ℕ) → Ptr × Timer → Type 0
IsOwned f g (a, t) = (f t.user_data ≡ a) × (g t.user_data ≡ t.user_data) × (t.user_data < fd_limit)

-- At the time `now` the timers `xs` are in the list, in order, at most three time slots ahead, and
-- every one is the timer of its client.
pub record IsHealthy (now : ℕ) (xs : Cells) (s : Server) : Type 0 where
  pub listed : IsList s.timer_list xs
  pub sorted : IsSorted xs
  pub near : Until (now + 3 * timeslot) xs
  pub owned : All (IsOwned s.user_timer s.user_sockfd) xs

-- An event that can occur at `now`: a new client has a descriptor that no client has, below
-- FD_LIMIT, and a new timer, data comes on a descriptor of a client, and time does not go back.
pub record IsClient (fd : ℕ) (xs : Cells) : Type 0 where
  pub front : Cells
  pub address : Ptr
  pub timer : Timer
  pub rear : Cells
  pub here : xs ≡ front ++ (address, timer) ∷ rear
  pub is_user : timer.user_data ≡ fd

abbrev pub IsPossible : ℕ → Cells → Event → Type 0
IsPossible now xs (connect fd a cur) =
    (now ≤ cur)
    × (a ≢ null)
    × (has a xs ≡ false)
    × All (λ c. c.1.user_data ≢ fd) xs
    × (fd < fd_limit)
IsPossible now xs (signalled sigs) = Unit
IsPossible now xs (readable fd r cur) = (now ≤ cur) × IsClient fd xs
IsPossible now xs other = Unit

-- The time after an event.
abbrev pub clock : ℕ → Event → ℕ
clock now (connect fd a cur) = cur
clock now (signalled sigs) = now
clock now (readable fd r cur) = cur
clock now other = now

pub Until-le : (m n : ℕ) (xs : Cells) → m ≤ n → Until m xs → Until n xs
Until-le m n [] l h = tt
Until-le m n (x ∷ xs) l h = (omega arith, Until-le m n xs l h.1)

module _ (P : Ptr × Timer → Type 0) where
  pub All-insert : (c : Ptr × Timer) (xs : Cells) → P c → All P xs → All P (insert c xs)
  unfolding insert
  All-insert c [] p h = (p, tt)
  All-insert c (x ∷ xs) p h = elim (Bool-cases (ltb c.1.expire x.1.expire)) [
    | inl less ↦ rw less (p, h)
    | inr more ↦ rw more (h.0, All-insert c xs p h.1)
  ]

  pub All-waiting : (cur : ℕ) (xs : Cells) → All P xs → All P (waiting cur xs)
  unfolding waiting
  All-waiting cur [] h = tt
  All-waiting cur (x ∷ xs) h = elim (Bool-cases (ltb cur x.1.expire)) [
    | inl later ↦ rw later (h.0, All-waiting cur xs h.1)
    | inr old ↦ rw old (All-waiting cur xs h.1)
  ]

pub without-IsSorted :
    (us : Cells) (c : Ptr × Timer) (bs : Cells) → IsSorted (us ++ c ∷ bs) → IsSorted (us ++ bs)
without-IsSorted [] c bs s = s.1
without-IsSorted (u ∷ us) c bs s =
    let (f, g) = From-split u.1.expire us (c ∷ bs) s.0 in
    (From-append u.1.expire us bs f g.1, without-IsSorted us c bs s.1)

pub waiting-IsSorted : (cur : ℕ) (xs : Cells) → IsSorted xs → IsSorted (waiting cur xs)
unfolding waiting
waiting-IsSorted cur [] s = tt
waiting-IsSorted cur (x ∷ xs) s = elim (Bool-cases (ltb cur x.1.expire)) [
  | inl later ↦
      rw later (All-waiting (λ y. x.1.expire ≤ y.1.expire) cur xs s.0, waiting-IsSorted cur xs s.1)
  | inr old ↦ rw old (waiting-IsSorted cur xs s.1)
]

-- A new client's entry leaves those of the others.
pub others-IsOwned :
    (f g : ℕ → ℕ) (fd a : ℕ) (xs : Cells)
    → All (λ c. c.1.user_data ≢ fd) xs
    → All (IsOwned f g) xs
    → All (IsOwned (set_user f fd a) (set_user g fd fd)) xs
others-IsOwned f g fd a [] n h = tt
others-IsOwned f g fd a (x ∷ xs) n h = (
  (ground (arith, n.0, h.0), ground (arith, n.0, h.0), h.0.2),
  others-IsOwned f g fd a xs n.1 h.1,
)

-- The server is healthy at the time `now`, with at most `n` timers.
abbrev pub Healthy : (now n : ℕ) → Server → Type 0
Healthy now n s = (xs : Cells) × IsHealthy now xs s × (length xs ≤ n)

-- The most timers there can be after an event.
abbrev pub timers_after : ℕ → Event → ℕ
timers_after n (connect fd a cur) = suc n
timers_after n e = n

pub length-insert : (c : Ptr × Timer) (xs : Cells) → length (insert c xs) ≡ suc (length xs)
unfolding insert
length-insert c [] = refl
length-insert c (x ∷ xs) = ground (arith, length-insert c xs)

pub length-waiting : (cur : ℕ) (xs : Cells) → length (waiting cur xs) ≤ length xs
unfolding waiting
length-waiting cur [] = omega arith
length-waiting cur (x ∷ xs) = ground (arith, length-waiting cur xs)
