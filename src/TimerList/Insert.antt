-- ===== src/TimerList/Insert.antt =====
-- `add_timer`: the public one and the private overload with its loop.
use mathlib.Core.Path.{subst}
use my_linux_demo.Base.{
  ◌∙◌, sym, ℕ, zero, suc, ◌<◌, ◌≡◌, ◌≢◌, refl, true, false, some, [], ◌∷◌, arith, inl, inr, ltb,
  ◌==◌, Bool-cases, Returns, Returns-mono, length,
}
use my_linux_demo.Mem.{Ptr, null, Mem, node, update}
use my_linux_demo.Mem.Links.{first, last, has, Distinct, Links, Links-frame}
use my_linux_demo.Mem.Split.{SameOutside}
use my_linux_demo.TimerList.{
  Timer, TimeList, with_mem, link_between, link_last, add_loop, add_timer_from, link_first,
  add_timer,
}
use my_linux_demo.TimerList.Spec.{Cells, IsList, insert}

pub has-insert : (p : Ptr) (c : Ptr × Timer) (xs : Cells) → has p (insert c xs) ≡ (has p (c ∷ xs))
unfolding insert
has-insert p c [] = refl
has-insert p c (x ∷ xs) = ground (arith, has-insert p c xs)

pub Distinct-insert :
    (a : Ptr) (t : Timer) (xs : Cells)
    → has a xs ≡ false
    → Distinct xs
    → Distinct (insert (a, t) xs)
unfolding insert
Distinct-insert a t [] out d = (refl, tt)
Distinct-insert a t ((b, x) ∷ xs) out d =
    ground (arith, has-insert b (a, t) xs, Distinct-insert a t xs)

-- What `add_loop` promises: the nodes from `c` on, with the timer in its place.
pub record Inserted (s : TimeList) (before a : Ptr) (t : Timer) (c : Ptr × Timer) (zs : Cells)
    (s' : TimeList) : Type 0 where
  pub links : Links s'.mem before (c ∷ insert (a, t) zs) null
  pub tail_is : s'.tail ≡ last (insert (a, t) zs) c.0
  pub head_is : s'.head ≡ s.head
  pub same : SameOutside ((a, t) ∷ c ∷ zs) s.mem s'.mem

module _ (s : TimeList) (a : Ptr) (t : Timer) (p q : Ptr) (ne : a ≢ null)
    (held : s.mem a ≡ some (node t p q)) where
  link_last-Inserted :
      (before c : Ptr) (x : Timer)
      → Links s.mem before ((c, x) ∷ []) null
      → (a == c) ≡ false
      → Returns (Inserted s before a t (c, x) []) (link_last s a c)
  unfolding link_last insert
  link_last-Inserted before c x l out = ground arith

  abbrev between : (before c z : Ptr) (x y : Timer) (zs : Cells) → Mem Timer
  between before c z x y zs =
      update
        (update (update (update s.mem c (some (node x before a))) a (some (node t p z))) z
          (some (node y a (first zs null))))
        a (some (node t c z))

  link_between-between :
      (before c z : Ptr) (x y : Timer) (zs : Cells)
      → Links s.mem before ((c, x) ∷ (z, y) ∷ zs) null
      → has a ((c, x) ∷ (z, y) ∷ zs) ≡ false
      → Distinct ((c, x) ∷ (z, y) ∷ zs)
      → link_between s a c z ≡ some (with_mem s (between before c z x y zs))
  unfolding link_between
  link_between-between before c z x y zs l out d = ground arith

  link_between-Inserted :
      (before c z : Ptr) (x y : Timer) (zs : Cells)
      → Links s.mem before ((c, x) ∷ (z, y) ∷ zs) null
      → has a ((c, x) ∷ (z, y) ∷ zs) ≡ false
      → Distinct ((c, x) ∷ (z, y) ∷ zs)
      → s.tail ≡ last zs z
      → ltb t.expire y.expire ≡ true
      → Returns (Inserted s before a t (c, x) ((z, y) ∷ zs)) (link_between s a c z)
  unfolding link_between insert
  link_between-Inserted before c z x y zs l out d tail less =
      rw (link_between-between before c z x y zs l out d) (record {
        links = ground (
          arith,
          Links-frame s.mem (between before c z x y zs) z null zs l.2.2 λ b i. ground arith,
        );
        tail_is = ground arith;
        head_is = refl;
        same = λ b o. ground arith;
      })

  Inserted-step :
      (before c z : Ptr) (x y : Timer) (zs : Cells)
      → Links s.mem before ((c, x) ∷ (z, y) ∷ zs) null
      → has a ((c, x) ∷ (z, y) ∷ zs) ≡ false
      → Distinct ((c, x) ∷ (z, y) ∷ zs)
      → ltb t.expire y.expire ≡ false
      → (s' : TimeList) → Inserted s c a t (z, y) zs s'
      → Inserted s before a t (c, x) ((z, y) ∷ zs) s'
  unfolding insert
  Inserted-step before c z x y zs l out d less s' i = record {
    links = ground (arith, i.links, i.same c);
    tail_is = ground (arith, i.tail_is);
    head_is = i.head_is;
    same = λ b o. i.same b (ground arith);
  }

  add_loop-Inserted :
      (fuel : ℕ) (before c : Ptr) (x : Timer) (zs : Cells)
      → Links s.mem before ((c, x) ∷ zs) null
      → has a ((c, x) ∷ zs) ≡ false
      → Distinct ((c, x) ∷ zs)
      → s.tail ≡ last zs c
      → length zs < fuel
      → Returns (Inserted s before a t (c, x) zs) (add_loop fuel s a c (first zs null))
  unfolding add_loop
  add_loop-Inserted zero before c x zs l out d tail f = absurd (omega arith)
  add_loop-Inserted (suc fuel) before c x [] l out d tail f =
      link_last-Inserted before c x l (ground arith)
  add_loop-Inserted (suc fuel) before c x ((z, y) ∷ zs) l out d tail f =
      let nz : (z == null) ≡ false = ground arith in
      let na : (a == null) ≡ false = ground arith in
      rw (nz, na, held, l.2.1)
        (elim (Bool-cases (ltb t.expire y.expire)) [
          | inl less ↦ rw less (link_between-Inserted before c z x y zs l out d tail less)
          | inr more ↦ rw more (
              Returns-mono _ _ _ (Inserted-step before c z x y zs l out d more)
                (add_loop-Inserted fuel c z y zs l.2 (ground arith) d.1 tail (omega arith)))
        ])

-- `add_timer(timer, list_head)`, for any first node `c` and whatever the new node's links hold.
pub add_timer_from-insert :
    (fuel : ℕ) (s : TimeList) (a : Ptr) (t : Timer) (p q before c : Ptr) (x : Timer) (zs : Cells)
    → a ≢ null
    → s.mem a ≡ some (node t p q)
    → Links s.mem before ((c, x) ∷ zs) null
    → has a ((c, x) ∷ zs) ≡ false
    → Distinct ((c, x) ∷ zs)
    → s.tail ≡ last zs c
    → length zs < fuel
    → Returns (Inserted s before a t (c, x) zs) (add_timer_from fuel s a c)
unfolding add_timer_from
add_timer_from-insert fuel s a t p q before c x zs ne held l out d tail f =
    let nc : (c == null) ≡ false = ground arith in
    rw (nc, l.1) (add_loop-Inserted s a t p q ne held fuel before c x zs l out d tail f)

pub insert-cons :
    (a c : Ptr) (t x : Timer) (zs : Cells)
    → ltb t.expire x.expire ≡ false
    → insert (a, t) ((c, x) ∷ zs) ≡ (c, x) ∷ insert (a, t) zs
unfolding insert
insert-cons a c t x zs more = rw more

Inserted-IsList :
    (s : TimeList) (a c : Ptr) (t x : Timer) (zs : Cells)
    → IsList s ((c, x) ∷ zs)
    → has a ((c, x) ∷ zs) ≡ false
    → ltb t.expire x.expire ≡ false
    → (s' : TimeList) → Inserted s null a t (c, x) zs s'
    → IsList s' (insert (a, t) ((c, x) ∷ zs)) × SameOutside ((a, t) ∷ (c, x) ∷ zs) s.mem s'.mem
Inserted-IsList s a c t x zs is out more s' i = (
  rw (insert-cons a c t x zs more) (record {
    links = i.links;
    distinct =
        rw (insert-cons a c t x zs more) at (Distinct-insert a t ((c, x) ∷ zs) out is.distinct);
    head_is = i.head_is ∙ is.head_is;
    tail_is = i.tail_is;
  }),
  i.same,
)

-- A node that the constructor has made and that no list holds.
pub record IsFresh (m : Mem Timer) (a : Ptr) (t : Timer) (xs : Cells) : Type 0 where
  pub ne_null : a ≢ null
  pub held : m a ≡ some (node t null null)
  pub outside : has a xs ≡ false

module _ (s : TimeList) (a c : Ptr) (t x : Timer) (xs : Cells) (is : IsList s ((c, x) ∷ xs))
    (fr : IsFresh s.mem a t ((c, x) ∷ xs)) where
  abbrev in_front : Mem Timer
  in_front = update (update s.mem a (some (node t null c))) c (some (node x a (first xs null)))

  link_first-in_front : link_first s a ≡ some (record { mem = in_front; head = a; tail = s.tail })
  unfolding link_first
  link_first-in_front = ground (arith, is.links, is.head_is, fr.ne_null, fr.held, fr.outside)

  link_first-insert :
      ltb t.expire x.expire ≡ true
      → Returns
          (λ s'.
            IsList s' (insert (a, t) ((c, x) ∷ xs))
            × SameOutside ((a, t) ∷ (c, x) ∷ xs) s.mem s'.mem)
          (link_first s a)
  unfolding insert
  link_first-insert less =
      rw (link_first-in_front, less)
        (
          record {
            links = ground (
              arith,
              fr.ne_null,
              fr.outside,
              is.distinct,
              is.links,
              Links-frame s.mem in_front c null xs is.links.2
                  λ b i. ground (arith, fr.outside, is.distinct),
            );
            distinct = (fr.outside, is.distinct);
            head_is = refl;
            tail_is = is.tail_is;
          },
          λ b o. ground arith,
        )

-- add_timer of a new node, with more fuel than timers, into a well-linked list implements
-- insertion into the sequence of timers: the node goes behind the leading timers that do not
-- expire later, the links stay intact in both directions, and no node outside the list is written.
pub add_timer-insert :
    (fuel : ℕ) (s : TimeList) (a : Ptr) (t : Timer) (xs : Cells)
    → IsList s xs
    → IsFresh s.mem a t xs
    → length xs < fuel
    → Returns
        (λ s'. IsList s' (insert (a, t) xs) × SameOutside ((a, t) ∷ xs) s.mem s'.mem)
        (add_timer fuel s a)
unfolding add_timer
add_timer-insert fuel s a t [] is fr f =
    rw is.head_is (unfold insert in ground (arith, fr.ne_null, fr.held))
add_timer-insert fuel s a t ((c, x) ∷ xs) is fr f =
    let na : (a == null) ≡ false = ground (arith, fr.ne_null) in
    let nh : (s.head == null) ≡ false = ground (arith, is.head_is, is.links) in
    let at_head : s.mem s.head ≡ some (node x null (first xs null)) =
      subst (λ h. s.mem h ≡ some (node x null (first xs null))) (sym is.head_is) is.links.1 in
    rw (na, nh, fr.held, at_head)
      (elim (Bool-cases (ltb t.expire x.expire)) [
        | inl less ↦ rw less (link_first-insert s a c t x xs is fr less)
        | inr more ↦ rw more (
            subst
              (λ h.
                Returns
                  (λ s'.
                    IsList s' (insert (a, t) ((c, x) ∷ xs))
                    × SameOutside ((a, t) ∷ (c, x) ∷ xs) s.mem s'.mem)
                  (add_timer_from fuel s a h))
              (sym is.head_is)
              (Returns-mono _ _ _ (Inserted-IsList s a c t x xs is fr.outside more) (
                add_timer_from-insert fuel s a t null null null c x xs fr.ne_null fr.held is.links
                  fr.outside is.distinct is.tail_is (omega arith))))
      ])
