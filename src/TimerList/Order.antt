-- ===== src/TimerList/Order.antt =====
-- The order of the timers: `add_timer` and `adjust_timer` keep it, and `tick` relies on it.
use my_linux_demo.Base.{
  ℕ, ◌≤◌, ◌<◌, ◌≡◌, refl, sym, ap, List, [], ◌∷◌, ◌++◌, map, arith, ltb, inl, inr, if◌then◌else◌,
  Bool-cases, Returns, Returns-then, length, All,
}
use mathlib.Core.List.{Perm}
use mathlib.Core.List.Perm
use my_linux_demo.Mem.{Ptr}
use my_linux_demo.Mem.Split.{SameOutside, Freed}
use my_linux_demo.TimerList.{Timer, TimeList, Call, add_timer, adjust_timer, tick}
use my_linux_demo.TimerList.Spec.{Cells, IsList, IsSorted, insert}
use my_linux_demo.TimerList.Insert.{IsFresh, add_timer-insert}
use my_linux_demo.TimerList.Adjust.{adjust_timer-insert}
use my_linux_demo.TimerList.Tick.{due, pending, call_of, tick-Ticked}

-- Every timer of `xs` expires at `n` or later.
abbrev pub From : ℕ → Cells → Type 0
From n xs = All (λ y. n ≤ y.1.expire) xs

-- Every timer of `xs` expires at `n` or before.
abbrev pub Until : ℕ → Cells → Type 0
Until n xs = All (λ y. y.1.expire ≤ n) xs

From-le : (m n : ℕ) (xs : Cells) → m ≤ n → From n xs → From m xs
From-le m n [] h f = tt
From-le m n (x ∷ xs) h f = (omega arith, From-le m n xs h f.1)

From-insert :
    (n : ℕ) (c : Ptr × Timer) (xs : Cells) → n ≤ c.1.expire → From n xs → From n (insert c xs)
unfolding insert
From-insert n c [] h f = (h, tt)
From-insert n c (x ∷ xs) h f = ground (arith, From-insert n c xs h)

pub insert-IsSorted : (c : Ptr × Timer) (xs : Cells) → IsSorted xs → IsSorted (insert c xs)
unfolding insert
insert-IsSorted c [] s = (tt, tt)
insert-IsSorted c (x ∷ xs) s = elim (Bool-cases (ltb c.1.expire x.1.expire)) [
  | inl less ↦ rw less ((ground arith, From-le c.1.expire x.1.expire xs (ground arith) s.0), s)
  | inr more ↦ rw more (From-insert x.1.expire c xs (ground arith) s.0, insert-IsSorted c xs s.1)
]

insert-perm : (c : Ptr × Timer) (xs : Cells) → Perm (insert c xs) (c ∷ xs)
unfolding insert
insert-perm c [] = Perm.refl (c ∷ [])
insert-perm c (x ∷ xs) = elim (Bool-cases (ltb c.1.expire x.1.expire)) [
  | inl less ↦ rw less (Perm.refl (c ∷ x ∷ xs))
  | inr more ↦ rw more (Perm.trans (Perm.cons x (insert-perm c xs)) (Perm.swap c x xs))
]

pub From-append : (n : ℕ) (us ys : Cells) → From n us → From n ys → From n (us ++ ys)
From-append n [] ys f g = g
From-append n (u ∷ us) ys f g = (f.0, From-append n us ys f.1 g)

pub From-split : (n : ℕ) (us ys : Cells) → From n (us ++ ys) → From n us × From n ys
From-split n [] ys f = (tt, f)
From-split n (u ∷ us) ys f = let (g, h) = From-split n us ys f.1 in ((f.0, g), h)

-- The timers that have expired at `cur`, and the others.
unfoldable pub expired : ℕ → Cells → Cells
expired cur [] = []
expired cur (x ∷ xs) = if ltb cur x.1.expire then expired cur xs else x ∷ expired cur xs

unfoldable pub waiting : ℕ → Cells → Cells
waiting cur [] = []
waiting cur (x ∷ xs) = if ltb cur x.1.expire then x ∷ waiting cur xs else waiting cur xs

expired_none :
    (cur n : ℕ) (xs : Cells) → cur < n → From n xs → (expired cur xs ≡ []) × (waiting cur xs ≡ xs)
unfolding expired waiting
expired_none cur n [] h f = (refl, refl)
expired_none cur n (x ∷ xs) h f = ground (arith, expired_none cur n xs h)

-- On a sorted list the walk to the first timer that is not due finds all that are.
due-expired :
    (cur : ℕ) (xs : Cells)
    → IsSorted xs
    → (due cur xs ≡ expired cur xs) × (pending cur xs ≡ waiting cur xs)
unfolding due pending expired waiting
due-expired cur [] s = (refl, refl)
due-expired cur (x ∷ xs) s = elim (Bool-cases (ltb cur x.1.expire)) [
  | inl later ↦
      let (e, w) = expired_none cur x.1.expire xs (ground arith) s.0 in
      rw later (sym e, ap (◌∷◌ x) (sym w))
  | inr old ↦ let (e, w) = due-expired cur xs s.1 in rw old (ap (◌∷◌ x) e, w)
]

-- The outcome of a tick at the time `cur`, with the calls made.
abbrev pub Swept : TimeList → ℕ → Cells → TimeList × List Call → Type 0
Swept s cur xs (s', calls) =
    IsList s' (waiting cur xs)
    × SameOutside xs s.mem s'.mem
    × Freed (expired cur xs) s'.mem
    × (calls ≡ map call_of (expired cur xs))

-- On a sorted, well-linked list, with more fuel than timers, tick calls back exactly the timers
-- that have expired, in order, deletes exactly those nodes, and leaves the others in the list.
pub tick-expired :
    (fuel cur : ℕ) (s : TimeList) (xs : Cells)
    → IsList s xs
    → IsSorted xs
    → length xs < fuel
    → Returns (λ r. Swept s cur xs r) (tick fuel cur s)
tick-expired fuel cur s xs is sorted f =
    let (e, w) = due-expired cur xs sorted in
    Returns-then _ (λ r. Swept s cur xs r) _ (tick-Ticked fuel cur s xs is f)
      λ r h. (rw (← w) h.0, h.1, rw (← e) h.2, rw (← e) h.3)

-- The list after an operation: it is well linked, sorted, and holds the timers `xs`.
abbrev pub Holds : Cells → TimeList → Type 0
Holds xs s = (ys : Cells) × IsList s ys × IsSorted ys × Perm ys xs

-- add_timer of a new node, with more fuel than timers, keeps a well-linked sorted list so and adds
-- just the new timer to it.
pub add_timer-Holds :
    (fuel : ℕ) (s : TimeList) (a : Ptr) (t : Timer) (xs : Cells)
    → IsList s xs
    → IsSorted xs
    → IsFresh s.mem a t xs
    → length xs < fuel
    → Returns (Holds ((a, t) ∷ xs)) (add_timer fuel s a)
add_timer-Holds fuel s a t xs is sorted fresh f =
    Returns-then _ (Holds ((a, t) ∷ xs)) _ (add_timer-insert fuel s a t xs is fresh f)
      λ s' h. (insert (a, t) xs, h.0, insert-IsSorted (a, t) xs sorted, insert-perm (a, t) xs)

pub append-insert-IsSorted :
    (us : Cells) (c : Ptr × Timer) (bs : Cells)
    → IsSorted (us ++ bs)
    → Until c.1.expire us
    → IsSorted (us ++ insert c bs)
append-insert-IsSorted [] c bs s h = insert-IsSorted c bs s
append-insert-IsSorted (u ∷ us) c bs s h =
    let (f, g) = From-split u.1.expire us bs s.0 in
    (
      From-append u.1.expire us (insert c bs) f (From-insert u.1.expire c bs h.0 g),
      append-insert-IsSorted us c bs s.1 h.1,
    )

-- adjust_timer of a timer in a well-linked list that expires no sooner than those in front of it,
-- where the other timers are sorted, and with more fuel than timers behind it, makes the list
-- sorted and keeps its timers the same.
pub adjust_timer-Holds :
    (fuel : ℕ) (s : TimeList) (us : Cells) (a : Ptr) (t : Timer) (bs : Cells)
    → IsList s (us ++ (a, t) ∷ bs)
    → IsSorted (us ++ bs)
    → Until t.expire us
    → length bs < fuel
    → Returns (Holds (us ++ (a, t) ∷ bs)) (adjust_timer fuel s a)
adjust_timer-Holds fuel s us a t bs is sorted late f =
    Returns-then _ (Holds (us ++ (a, t) ∷ bs)) _ (adjust_timer-insert fuel s us a t bs is f) λ s' h.
      (
        us ++ insert (a, t) bs,
        h.0,
        append-insert-IsSorted us (a, t) bs sorted late,
        Perm.append (Perm.refl us) (insert-perm (a, t) bs),
      )
