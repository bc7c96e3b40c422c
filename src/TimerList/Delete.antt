-- ===== src/TimerList/Delete.antt =====
-- `del_timer`.
use mathlib.Core.List.{append_assoc}
use my_linux_demo.Base.{
  ◌≡◌, refl, Bool, true, false, none, some, [], ◌∷◌, ◌++◌, arith, ◌==◌, if◌then◌else◌, Returns,
}
use my_linux_demo.Mem.{Ptr, null, Mem, node, update}
use my_linux_demo.Mem.Links.{first, last, has, Distinct, Links, Links-frame, Links-split}
use my_linux_demo.Mem.Split.{SameOutside, SameOutside-append, Distinct-split, not_first, rear_elim}
use my_linux_demo.TimerList.{
  Timer, TimeList, with_mem, del_only, del_head, del_tail, del_inner, del_timer,
}
use my_linux_demo.TimerList.Spec.{Cells, IsList}
use my_linux_demo.TimerList.Context.{TailIs-append, IsList-rear}

-- Whether `bs` or `us` is empty: the node between them is the head or the tail.
abbrev pub at_end : Cells → Cells → Bool
at_end [] bs = true
at_end (u ∷ us) [] = true
at_end (u ∷ us) (b ∷ bs) = false

-- What `del_timer` promises of the list `us`, `a`, `bs`.
abbrev pub Deleted : TimeList → Cells → Ptr × Timer → Cells → TimeList → Type 0
Deleted s us c bs s' =
    IsList s' (us ++ bs)
    × SameOutside (us ++ c ∷ bs) s.mem s'.mem
    × (s'.mem c.0 ≡ (if at_end us bs then none else s.mem c.0))

has-last :
    (a c : Ptr) (x : Timer) (zs : Cells) → has a ((c, x) ∷ zs) ≡ false → (a == last zs c) ≡ false
has-last a c x [] o = ground arith
has-last a c x ((d, y) ∷ zs) o = has-last a d y zs (ground arith)

module _ (s : TimeList) (a : Ptr) (t : Timer) where
  del_timer-only : IsList s ((a, t) ∷ []) → Returns (Deleted s [] (a, t) []) (del_timer s a)
  unfolding del_timer del_only
  del_timer-only is =
      let h : (a == s.head) ≡ true = ground (arith, is.head_is) in
      let l : (a == s.tail) ≡ true = ground (arith, is.tail_is) in
      let na : (a == null) ≡ false = ground (arith, is.links) in
      rw (na, h, l, is.links.1)
        (
          record { links = tt; distinct = tt; head_is = refl; tail_is = tt },
          λ p o. ground arith,
          ground arith,
        )

  del_timer-head :
      (c : Ptr) (x : Timer) (zs : Cells)
      → IsList s ((a, t) ∷ (c, x) ∷ zs)
      → Returns (Deleted s [] (a, t) ((c, x) ∷ zs)) (del_timer s a)
  unfolding del_timer
  del_timer-head c x zs is =
      let h : (a == s.head) ≡ true = ground (arith, is.head_is) in
      let l : (a == s.tail) ≡ false = rw is.tail_is (has-last a c x zs is.distinct.0) in
      let na : (a == null) ≡ false = ground (arith, is.links) in
      let g = update (update s.mem c (some (node x null (first zs null)))) a none in
      let run : del_head s a ≡ some (record { mem = g; head = c; tail = s.tail }) =
        unfold del_head in ground (arith, is.links, is.head_is, is.distinct) in
      rw (na, h, l, run)
        (
          record {
            links = ground (
              arith,
              is.links,
              is.distinct,
              Links-frame s.mem g c null zs is.links.2.2 λ p i. ground (arith, is.distinct),
            );
            distinct = is.distinct.1;
            head_is = refl;
            tail_is = is.tail_is;
          },
          λ p o. ground arith,
          ground arith,
        )

  module _ (vs : Cells) (b : Ptr) (w : Timer) where
    del_timer-tail :
        IsList s (vs ++ (b, w) ∷ (a, t) ∷ [])
        → Returns
            (λ s'.
              IsList s' (vs ++ (b, w) ∷ [])
              × SameOutside (vs ++ (b, w) ∷ (a, t) ∷ []) s.mem s'.mem
              × (s'.mem a ≡ none))
            (del_timer s a)
    unfolding del_timer
    del_timer-tail is =
        let (_, d, _) = Distinct-split vs ((b, w) ∷ (a, t) ∷ []) is.distinct in
        let (_, k) = Links-split s.mem null null vs ((b, w) ∷ (a, t) ∷ []) is.links in
        let tail : s.tail ≡ a = (TailIs-append s.tail vs b w ((a, t) ∷ [])).0 is.tail_is in
        let h : (a == s.head) ≡ false =
          rw is.head_is (not_first vs b a w ((a, t) ∷ []) is.distinct (ground arith)) in
        let l : (a == s.tail) ≡ true = ground arith in
        let na : (a == null) ≡ false = ground arith in
        let g = update (update s.mem b (some (node w (last vs null) null))) a none in
        let s' : TimeList = record { mem = g; head = s.head; tail = b } in
        let run : del_tail s a ≡ some s' = unfold del_tail in ground arith in
        let same : SameOutside ((b, w) ∷ (a, t) ∷ []) s.mem g = λ p o. ground arith in
        rw (na, h, l, run)
          (
            IsList-rear s s' vs b w ((a, t) ∷ []) [] is (k.0, ground arith, tt) same (λ p i. cc)
                (refl, tt) refl refl,
            SameOutside-append vs _ s.mem g same,
            ground arith,
          )

    module _ (c : Ptr) (x : Timer) (zs : Cells)
        (is : IsList s (vs ++ (b, w) ∷ (a, t) ∷ (c, x) ∷ zs)) where
      rear-Links : Links s.mem (last vs null) ((b, w) ∷ (a, t) ∷ (c, x) ∷ zs) null
      rear-Links = (Links-split s.mem null null vs ((b, w) ∷ (a, t) ∷ (c, x) ∷ zs) is.links).1

      rear-Distinct : Distinct ((b, w) ∷ (a, t) ∷ (c, x) ∷ zs)
      rear-Distinct = (Distinct-split vs ((b, w) ∷ (a, t) ∷ (c, x) ∷ zs) is.distinct).1

      rear_tail : s.tail ≡ last zs c
      rear_tail = (TailIs-append s.tail vs b w ((a, t) ∷ (c, x) ∷ zs)).0 is.tail_is

      abbrev skipped : Mem Timer
      skipped =
          update (update s.mem c (some (node x b (first zs null)))) b
            (some (node w (last vs null) c))

      del_inner-skipped : del_inner s a ≡ some (with_mem s skipped)
      unfolding del_inner
      del_inner-skipped = ground (arith, rear-Links, rear-Distinct)

      skipped-IsList : IsList (with_mem s skipped) (vs ++ (b, w) ∷ (c, x) ∷ zs)
      skipped-IsList =
          IsList-rear s (with_mem s skipped) vs b w ((a, t) ∷ (c, x) ∷ zs) ((c, x) ∷ zs) is
            (ground (
              arith,
              rear-Links,
              rear-Distinct,
              Links-frame s.mem skipped c null zs rear-Links.2.2.2
                  λ p i. ground (arith, rear-Distinct),
            ))
            (λ p o. ground arith) (λ p i. ground arith) (ground (arith, rear-Distinct)) refl
            rear_tail

      del_timer-inner :
          Returns
            (λ s'.
              IsList s' (vs ++ (b, w) ∷ (c, x) ∷ zs)
              × SameOutside (vs ++ (b, w) ∷ (a, t) ∷ (c, x) ∷ zs) s.mem s'.mem
              × (s'.mem a ≡ s.mem a))
            (del_timer s a)
      unfolding del_timer
      del_timer-inner =
          let h : (a == s.head) ≡ false =
            rw is.head_is (not_first vs b a w ((a, t) ∷ (c, x) ∷ zs) is.distinct (ground arith)) in
          let l : (a == s.tail) ≡ false = rw rear_tail (has-last a c x zs rear-Distinct.1.0) in
          let na : (a == null) ≡ false = ground (arith, rear-Links) in
          rw (na, h, l, del_inner-skipped)
            (
              skipped-IsList,
              SameOutside-append vs _ s.mem skipped (λ p o. ground arith),
              ground (arith, rear-Distinct),
            )

at_end-snoc :
    (vs : Cells) (b : Ptr) (w : Timer) (bs : Cells)
    → at_end (vs ++ (b, w) ∷ []) bs ≡ at_end ((b, w) ∷ []) bs
at_end-snoc [] b w bs = refl
at_end-snoc ((v, x) ∷ vs) b w [] = refl
at_end-snoc ((v, x) ∷ vs) b w (c ∷ bs) = refl

-- del_timer takes a node of a well-linked list out of it, keeps the others in order with their
-- links intact and writes no node outside the list; the node is deleted if it was the first or the
-- last one, and stays allocated if it stood between two others.
pub del_timer-removes :
    (s : TimeList) (us : Cells) (a : Ptr) (t : Timer) (bs : Cells)
    → IsList s (us ++ (a, t) ∷ bs)
    → Returns (λ s'. Deleted s us (a, t) bs s') (del_timer s a)
del_timer-removes s us a t [] =
    rear_elim
      (λ us.
        IsList s (us ++ (a, t) ∷ []) → Returns (λ s'. Deleted s us (a, t) [] s') (del_timer s a))
      (del_timer-only s a t)
      (λ vs b w is.
        simp (append_assoc, at_end-snoc) (del_timer-tail s a t vs b w (rw append_assoc at is)))
      us
del_timer-removes s us a t ((c, x) ∷ zs) =
    rear_elim
      (λ us.
        IsList s (us ++ (a, t) ∷ (c, x) ∷ zs)
        → Returns (λ s'. Deleted s us (a, t) ((c, x) ∷ zs) s') (del_timer s a))
      (del_timer-head s a t c x zs)
      (λ vs b w is.
        simp (append_assoc, at_end-snoc)
          (del_timer-inner s a t vs b w c x zs (rw append_assoc at is)))
      us
