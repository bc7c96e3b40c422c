-- ===== src/TimerList/Tick.antt =====
-- `tick` on any list: the walk to the first timer that is not due.
use mathlib.Core.Path.{subst}
use my_linux_demo.Base.{
  ℕ, zero, suc, ◌<◌, ◌≡◌, refl, sym, ap, true, false, none, some, List, [], ◌∷◌, map, arith, ltb,
  inl, inr, ◌==◌, if◌then◌else◌, Bool-cases, Returns, Returns-bind, length,
}
use my_linux_demo.Mem.{Ptr, null, node, update}
use my_linux_demo.Mem.Links.{first, Distinct, Links-frame}
use my_linux_demo.Mem.Split.{SameOutside, Freed}
use my_linux_demo.TimerList.{Timer, TimeList, Call, drop_head, tick_loop, tick}
use my_linux_demo.TimerList.Spec.{Cells, IsList}

-- The timers at the front that expire at `cur` or before, and those behind them.
unfoldable pub due : ℕ → Cells → Cells
due cur [] = []
due cur (x ∷ xs) = if ltb cur x.1.expire then [] else x ∷ due cur xs

unfoldable pub pending : ℕ → Cells → Cells
pending cur [] = []
pending cur (x ∷ xs) = if ltb cur x.1.expire then x ∷ xs else pending cur xs

abbrev pub call_of : Ptr × Timer → Call
call_of c = (c.1.cb_func, c.1.user_data)

-- What `drop_head` promises of a list that starts with `a`.
abbrev Dropped : TimeList → Ptr → Timer → Cells → TimeList → Type 0
Dropped s a t xs s' = IsList s' xs × SameOutside ((a, t) ∷ xs) s.mem s'.mem × (s'.mem a ≡ none)

drop_head-Dropped :
    (s : TimeList) (a : Ptr) (t : Timer) (xs : Cells)
    → IsList s ((a, t) ∷ xs)
    → Returns (λ s'. Dropped s a t xs s') (drop_head s a)
drop_head-Dropped s a t [] is =
    let g = update s.mem a none in
    let run : drop_head s a ≡ some (record { mem = g; head = null; tail = s.tail }) =
      unfold drop_head in ground (arith, is.links) in
    rw run (
      record { links = tt; distinct = tt; head_is = refl; tail_is = tt },
      λ p o. ground arith,
      ground arith,
    )
drop_head-Dropped s a t ((c, x) ∷ xs) is =
    let g = update (update s.mem c (some (node x null (first xs null)))) a none in
    let run : drop_head s a ≡ some (record { mem = g; head = c; tail = s.tail }) =
      unfold drop_head in ground (arith, is.links, is.distinct) in
    rw run (
      record {
        links = ground (
          arith,
          is.links,
          is.distinct,
          Links-frame s.mem g c null xs is.links.2.2 λ p i. ground (arith, is.distinct),
        );
        distinct = is.distinct.1;
        head_is = refl;
        tail_is = is.tail_is;
      },
      λ p o. ground arith,
      ground arith,
    )

-- What `tick` promises: it has called back and deleted the timers that are due, in order.
abbrev pub Ticked : TimeList → ℕ → Cells → TimeList × List Call → Type 0
Ticked s cur xs (s', calls) =
    IsList s' (pending cur xs)
    × SameOutside xs s.mem s'.mem
    × Freed (due cur xs) s'.mem
    × (calls ≡ map call_of (due cur xs))

due-cons :
    (cur : ℕ) (a : Ptr) (t : Timer) (xs : Cells)
    → ltb cur t.expire ≡ false
    → due cur ((a, t) ∷ xs) ≡ (a, t) ∷ due cur xs
unfolding due
due-cons cur a t xs old = rw old

pending-cons :
    (cur : ℕ) (a : Ptr) (t : Timer) (xs : Cells)
    → ltb cur t.expire ≡ false
    → pending cur ((a, t) ∷ xs) ≡ pending cur xs
unfolding pending
pending-cons cur a t xs old = rw old

Ticked-cons :
    (s s₁ : TimeList) (cur : ℕ) (a : Ptr) (t : Timer) (xs : Cells)
    → Distinct ((a, t) ∷ xs)
    → ltb cur t.expire ≡ false
    → Dropped s a t xs s₁
    → (s' : TimeList) (calls : List Call) → Ticked s₁ cur xs (s', calls)
    → Ticked s cur ((a, t) ∷ xs) (s', (t.cb_func, t.user_data) ∷ calls)
Ticked-cons s s₁ cur a t xs d old (_, same, gone) s' calls (is, same', freed, e) =
    rw (due-cons cur a t xs old, pending-cons cur a t xs old)
      (
        is,
        (λ p o. ground (arith, same p, same' p)),
        (λ p i. ground (arith, freed p, same' a)),
        ap (λ (l : List Call). (t.cb_func, t.user_data) ∷ l) e,
      )

tick_loop-Ticked :
    (fuel cur : ℕ) (s : TimeList) (xs : Cells)
    → IsList s xs
    → length xs < fuel
    → Returns (λ r. Ticked s cur xs r) (tick_loop fuel cur s)
unfolding tick_loop
tick_loop-Ticked zero cur s xs is f = absurd (omega arith)
tick_loop-Ticked (suc fuel) cur s [] is f =
    let nh : (s.head == null) ≡ true = ground (arith, is.head_is) in
    rw nh (unfold due pending in (is, λ p o. refl, λ p i. cc, refl))
tick_loop-Ticked (suc fuel) cur s ((a, t) ∷ xs) is f =
    let nh : (s.head == null) ≡ false = ground (arith, is.head_is, is.links) in
    let at_head : s.mem s.head ≡ some (node t null (first xs null)) =
      subst (λ h. s.mem h ≡ some (node t null (first xs null))) (sym is.head_is) is.links.1 in
    let dropped : Returns (λ s'. Dropped s a t xs s') (drop_head s s.head) =
      subst (λ h. Returns (λ s'. Dropped s a t xs s') (drop_head s h)) (sym is.head_is)
        (drop_head-Dropped s a t xs is) in
    rw (nh, at_head)
      (elim (Bool-cases (ltb cur t.expire)) [
        | inl later ↦ rw later (unfold due pending in rw later (is, λ p o. refl, λ p i. cc, refl))
        | inr old ↦ rw old (
            Returns-bind (λ s'. Dropped s a t xs s') (λ r. Ticked s cur ((a, t) ∷ xs) r)
              (drop_head s s.head) _ dropped
              λ s₁ d.
                Returns-bind (λ r. Ticked s₁ cur xs r) (λ r. Ticked s cur ((a, t) ∷ xs) r)
                  (tick_loop fuel cur s₁) _ (tick_loop-Ticked fuel cur s₁ xs d.0 (omega arith))
                  λ r h. Ticked-cons s s₁ cur a t xs is.distinct old d r.0 r.1 h)
      ])

pub tick-Ticked :
    (fuel cur : ℕ) (s : TimeList) (xs : Cells)
    → IsList s xs
    → length xs < fuel
    → Returns (λ r. Ticked s cur xs r) (tick fuel cur s)
unfolding tick
tick-Ticked fuel cur s [] is f =
    let nh : (s.head == null) ≡ true = ground (arith, is.head_is) in
    rw nh (unfold due pending in (is, λ p o. refl, λ p i. cc, refl))
tick-Ticked fuel cur s ((a, t) ∷ xs) is f =
    let nh : (s.head == null) ≡ false = ground (arith, is.head_is, is.links) in
    rw nh (tick_loop-Ticked fuel cur s ((a, t) ∷ xs) is f)
