-- ===== src/TimerList/Adjust.antt =====
-- `adjust_timer`.

use mathlib.Core.List.{append_assoc}
use my_linux_demo.Base.{
  ℕ, ◌<◌, ◌≡◌, refl, true, false, inl, inr, some, [], ◌∷◌, ◌++◌, arith, ltb, ◌==◌, Bool-cases,
  Returns, Returns-mono, length,
}
use my_linux_demo.Mem.{Ptr, null, Mem, node, update}
use my_linux_demo.Mem.Links.{first, last, Distinct, Links, Links-frame, Links-split}
use my_linux_demo.Mem.Split.{SameOutside, SameOutside-append, Distinct-split, not_first, rear_elim}
use my_linux_demo.TimerList.{
  Timer, TimeList, with_mem, add_timer_from, adjust_head, adjust_inner, adjust_move, adjust_timer,
}
use my_linux_demo.TimerList.Spec.{Cells, IsList, insert}
use my_linux_demo.TimerList.Context.{TailIs-append, IsList-rear}
use my_linux_demo.TimerList.Insert.{
  Inserted, has-insert, Distinct-insert, insert-cons, add_timer_from-insert,
}

-- The rear part of the list after `a` has been moved from between `b` and `c`.
abbrev Moved : TimeList → Ptr → (b a c : Ptr) → (w t x : Timer) → Cells → TimeList → Type 0
Moved s before b a c w t x zs s' =
    Links s'.mem before ((b, w) ∷ (c, x) ∷ insert (a, t) zs) null
    × SameOutside ((b, w) ∷ (a, t) ∷ (c, x) ∷ zs) s.mem s'.mem
    × (s'.head ≡ s.head)
    × (s'.tail ≡ last (insert (a, t) zs) c)

-- The node `a` stands between `b` and `c`.
module _ (fuel : ℕ) (s : TimeList) (before b a c : Ptr) (w t x : Timer) (zs : Cells)
    (l : Links s.mem before ((b, w) ∷ (a, t) ∷ (c, x) ∷ zs) null)
    (d : Distinct ((b, w) ∷ (a, t) ∷ (c, x) ∷ zs)) (tail : s.tail ≡ last zs c)
    (f : length zs < fuel) where
  abbrev unlinked : Mem Timer
  unlinked = update (update s.mem b (some (node w before c))) c (some (node x b (first zs null)))

  adjust_inner-unlinked : adjust_inner fuel s a ≡ add_timer_from fuel (with_mem s unlinked) a c
  unfolding adjust_inner
  adjust_inner-unlinked = ground arith

  unlinked-Links : Links unlinked b ((c, x) ∷ zs) null
  unlinked-Links = ground (arith, Links-frame s.mem unlinked c null zs l.2.2.2 λ p i. ground arith)

  Inserted-Moved :
      (s' : TimeList)
      → Inserted (with_mem s unlinked) b a t (c, x) zs s'
      → Moved s before b a c w t x zs s'
  Inserted-Moved s' i = (
    (l.0, ground (arith, i.same b), i.links),
    (λ p o. ground (arith, i.same p)),
    i.head_is,
    i.tail_is,
  )

  adjust_inner-Moved : Returns (Moved s before b a c w t x zs) (adjust_inner fuel s a)
  adjust_inner-Moved = rw adjust_inner-unlinked (
      Returns-mono _ _ _ Inserted-Moved (
        add_timer_from-insert fuel (with_mem s unlinked) a t b c b c x zs (ground arith)
          (ground arith) unlinked-Links (ground arith) (ground arith) tail f))

-- The node `a` is the head, and `c` stands behind it.
module _ (fuel : ℕ) (s : TimeList) (a c : Ptr) (t x : Timer) (zs : Cells)
    (is : IsList s ((a, t) ∷ (c, x) ∷ zs)) (more : ltb t.expire x.expire ≡ false)
    (f : length zs < fuel) where
  abbrev beheaded : TimeList
  beheaded = record {
    mem = update (update s.mem c (some (node x null (first zs null)))) a (some (node t null null));
    head = c;
    tail = s.tail;
  }

  adjust_head-beheaded : adjust_head fuel s a ≡ add_timer_from fuel beheaded a c
  unfolding adjust_head
  adjust_head-beheaded = ground (arith, is.links, is.head_is, is.distinct)

  beheaded-Links : Links beheaded.mem null ((c, x) ∷ zs) null
  beheaded-Links = ground (
    arith,
    is.links,
    is.distinct,
    Links-frame s.mem beheaded.mem c null zs is.links.2.2 λ p i. ground (arith, is.distinct),
  )

  Inserted-head :
      (s' : TimeList)
      → Inserted beheaded null a t (c, x) zs s'
      → IsList s' (insert (a, t) ((c, x) ∷ zs)) × SameOutside ((a, t) ∷ (c, x) ∷ zs) s.mem s'.mem
  Inserted-head s' i = (
    rw (insert-cons a c t x zs more) (record {
      links = i.links;
      distinct =
          rw (insert-cons a c t x zs more) at
            (Distinct-insert a t ((c, x) ∷ zs) is.distinct.0 is.distinct.1);
      head_is = i.head_is;
      tail_is = i.tail_is;
    }),
    (λ p o. ground (arith, i.same p)),
  )

  adjust_head-insert :
      Returns
        (λ s'.
          IsList s' (insert (a, t) ((c, x) ∷ zs)) × SameOutside ((a, t) ∷ (c, x) ∷ zs) s.mem s'.mem)
        (adjust_head fuel s a)
  adjust_head-insert = rw adjust_head-beheaded (
      Returns-mono _ _ _ Inserted-head (
        add_timer_from-insert fuel beheaded a t null null null c x zs is.links.0 (ground arith)
          beheaded-Links is.distinct.0 is.distinct.1 is.tail_is f))

-- What `adjust_timer` promises of the list `us`, `a`, `bs`.
abbrev pub Adjusted : TimeList → Cells → Ptr × Timer → Cells → TimeList → Type 0
Adjusted s us c bs s' = IsList s' (us ++ insert c bs) × SameOutside (us ++ c ∷ bs) s.mem s'.mem

module _ (fuel : ℕ) (s : TimeList) (us : Cells) (b a c : Ptr) (w t x : Timer) (zs : Cells)
    (is : IsList s (us ++ (b, w) ∷ (a, t) ∷ (c, x) ∷ zs)) (more : ltb t.expire x.expire ≡ false)
    (f : length zs < fuel) where
  Moved-Adjusted :
      (s' : TimeList)
      → Moved s (last us null) b a c w t x zs s'
      → IsList s' (us ++ (b, w) ∷ insert (a, t) ((c, x) ∷ zs))
        × SameOutside (us ++ (b, w) ∷ (a, t) ∷ (c, x) ∷ zs) s.mem s'.mem
  Moved-Adjusted s' (l, same, h, tl) =
      let (_, d, _) = Distinct-split us ((b, w) ∷ (a, t) ∷ (c, x) ∷ zs) is.distinct in
      (
        rw (insert-cons a c t x zs more) (
            IsList-rear s s' us b w ((a, t) ∷ (c, x) ∷ zs) ((c, x) ∷ insert (a, t) zs) is l same
              (λ p i. ground (arith, has-insert p (a, t) zs))
              (
                ground (arith, has-insert b (a, t) zs),
                (
                  ground (arith, has-insert c (a, t) zs),
                  Distinct-insert a t zs (ground arith) d.1.1.1,
                ),
              )
              h tl),
        SameOutside-append us _ s.mem s'.mem same,
      )

  adjust_inner-Adjusted :
      Returns
        (λ s'.
          IsList s' (us ++ (b, w) ∷ insert (a, t) ((c, x) ∷ zs))
          × SameOutside (us ++ (b, w) ∷ (a, t) ∷ (c, x) ∷ zs) s.mem s'.mem)
        (adjust_inner fuel s a)
  adjust_inner-Adjusted =
      let (_, d, _) = Distinct-split us ((b, w) ∷ (a, t) ∷ (c, x) ∷ zs) is.distinct in
      let (_, l) = Links-split s.mem null null us ((b, w) ∷ (a, t) ∷ (c, x) ∷ zs) is.links in
      Returns-mono _ _ _ Moved-Adjusted (
        adjust_inner-Moved fuel s (last us null) b a c w t x zs l d
          ((TailIs-append s.tail us b w ((a, t) ∷ (c, x) ∷ zs)).0 is.tail_is) f)

  a_not_head : (a == s.head) ≡ false
  a_not_head = rw is.head_is (not_first us b a w ((a, t) ∷ (c, x) ∷ zs) is.distinct (ground arith))

  adjust_move-inner :
      Returns
        (λ s'.
          IsList s' (us ++ (b, w) ∷ insert (a, t) ((c, x) ∷ zs))
          × SameOutside (us ++ (b, w) ∷ (a, t) ∷ (c, x) ∷ zs) s.mem s'.mem)
        (adjust_move fuel s a)
  unfolding adjust_move
  adjust_move-inner = rw a_not_head adjust_inner-Adjusted

module _ (fuel : ℕ) (s : TimeList) (a c : Ptr) (t x : Timer) (zs : Cells)
    (more : ltb t.expire x.expire ≡ false) (f : length zs < fuel) where
  adjust_move-Adjusted :
      (us : Cells)
      → IsList s (us ++ (a, t) ∷ (c, x) ∷ zs)
      → Returns (Adjusted s us (a, t) ((c, x) ∷ zs)) (adjust_move fuel s a)
  unfolding adjust_move
  adjust_move-Adjusted =
      rear_elim
        (λ us.
          IsList s (us ++ (a, t) ∷ (c, x) ∷ zs)
          → Returns (λ s'. Adjusted s us (a, t) ((c, x) ∷ zs) s') (adjust_move fuel s a))
        (λ is.
          let same : (a == s.head) ≡ true = ground (arith, is.head_is) in
          rw same (adjust_head-insert fuel s a c t x zs is more f))
        (λ vs b w is.
          simp append_assoc
            (adjust_move-inner fuel s vs b a c w t x zs (rw append_assoc at is) more f))

-- adjust_timer of a timer in a well-linked list, with more fuel than timers behind it, moves it
-- behind the timers after it that do not expire later, keeps the order of the others and the links
-- intact in both directions, and writes no node outside the list.
pub adjust_timer-insert :
    (fuel : ℕ) (s : TimeList) (us : Cells) (a : Ptr) (t : Timer) (bs : Cells)
    → IsList s (us ++ (a, t) ∷ bs)
    → length bs < fuel
    → Returns (Adjusted s us (a, t) bs) (adjust_timer fuel s a)
unfolding adjust_timer
adjust_timer-insert fuel s us a t [] is f =
    let (_, l) = Links-split s.mem null null us ((a, t) ∷ []) is.links in
    let na : (a == null) ≡ false = ground arith in rw (na, l.1) (unfold insert in (is, λ p o. refl))
adjust_timer-insert fuel s us a t ((c, x) ∷ zs) is f =
    let (_, l) = Links-split s.mem null null us ((a, t) ∷ (c, x) ∷ zs) is.links in
    let na : (a == null) ≡ false = ground arith in
    let nc : (c == null) ≡ false = ground arith in
    rw (na, l.1, nc, l.2.1)
      (elim (Bool-cases (ltb t.expire x.expire)) [
        | inl less ↦ rw less (unfold insert in rw less (is, λ p o. refl))
        | inr more ↦ rw more (adjust_move-Adjusted fuel s a c t x zs more (omega arith) us is)
      ])
