-- ===== src/Wheel/Delete.antt =====
-- `delete_timer` of the wheel.

use mathlib.Core.List.{append_assoc}
use my_linux_demo.Base.{
  ℕ, ◌<◌, ◌≡◌, ◌≢◌, refl, sym, ◌∙◌, true, false, Option, none, some, [], ◌∷◌, ◌++◌, arith, ◌==◌,
  ltb, if◌then◌else◌, Returns, Returns-bind, Returns-then, All,
}
use my_linux_demo.Mem.{Ptr, null, node, update}
use my_linux_demo.Mem.Links.{
  first, has, has-append, first-append, Distinct, Links, Links-frame, Links-split,
}
use my_linux_demo.Mem.Split.{SameOutside, Distinct-split, Distinct-rear, not_first, rear_elim}
use my_linux_demo.Wheel.{
  TwTimer, TimeWheel, slots, set_slot, splice, delete_first, delete_inner, delete_timer,
}
use my_linux_demo.Wheel.Spec.{Cells, IsWheel, put_at}
use my_linux_demo.Wheel.Replace.{replace-IsWheel}
use my_linux_demo.Wheel.Splice.{splice-Spliced}

-- The node `a` is gone from the slot `k` that held `us`, `a`, `bs`.
record Removed (w : TimeWheel) (k : ℕ) (us : Cells) (a : Ptr) (t : TwTimer) (bs : Cells)
    (w' : TimeWheel) : Type 0 where
  links : Links w'.mem null (us ++ bs) null
  slot_is : w'.slot k ≡ first (us ++ bs) null
  distinct : Distinct (us ++ bs)
  slot_same : (j : ℕ) → (j == k) ≡ false → w'.slot j ≡ w.slot j
  same : SameOutside (us ++ (a, t) ∷ bs) w.mem w'.mem
  gone : w'.mem a ≡ none
  cur_same : w'.cur_slot ≡ w.cur_slot

module _ (w : TimeWheel) (k : ℕ) (a : Ptr) (t : TwTimer) (r : k < slots) where
  -- The choice that `delete_timer` makes once it has read the node.
  abbrev choose : Option TimeWheel
  choose = if a == w.slot k then delete_first w k a else delete_inner w a

  abbrev Slot : Cells → Type 0
  Slot ys = Links w.mem null ys null × Distinct ys × (w.slot k ≡ first ys null)

  delete_only : Slot ((a, t) ∷ []) → Returns (λ w'. Removed w k [] a t [] w') choose
  delete_only (l, d, s) =
      let here : (a == w.slot k) ≡ true = ground arith in
      let w' : TimeWheel = record {
        mem = update w.mem a none;
        slot = set_slot w.slot k null;
        cur_slot = w.cur_slot;
      } in
      let run : delete_first w k a ≡ some w' = unfold delete_first in ground arith in
      rw (here, run)
        (record {
          links = tt;
          slot_is = ground arith;
          distinct = tt;
          slot_same = λ j ne. ground arith;
          same = λ p o. ground arith;
          gone = ground arith;
          cur_same = refl;
        })

  delete_head :
      (c : Ptr) (x : TwTimer) (zs : Cells)
      → Slot ((a, t) ∷ (c, x) ∷ zs)
      → Returns (λ w'. Removed w k [] a t ((c, x) ∷ zs) w') choose
  delete_head c x zs (l, d, s) =
      let here : (a == w.slot k) ≡ true = ground arith in
      let g = update (update w.mem c (some (node x null (first zs null)))) a none in
      let w' : TimeWheel = record { mem = g; slot = set_slot w.slot k c; cur_slot = w.cur_slot } in
      let run : delete_first w k a ≡ some w' = unfold delete_first in ground arith in
      rw (here, run)
        (record {
          links = ground (arith, Links-frame w.mem g c null zs l.2.2 λ p i. ground arith);
          slot_is = ground arith;
          distinct = d.1;
          slot_same = λ j ne. ground arith;
          same = λ p o. ground arith;
          gone = ground arith;
          cur_same = refl;
        })

  module _ (vs : Cells) (b : Ptr) (y : TwTimer) (bs : Cells) where
    -- `Removed` for the front part `vs`, `b`.
    abbrev Cut : TimeWheel → Type 0
    Cut w' = Removed w k (vs ++ (b, y) ∷ []) a t bs w'

    delete_middle : Slot (vs ++ (b, y) ∷ (a, t) ∷ bs) → Returns Cut choose
    unfolding delete_inner
    delete_middle (l, d, s) =
        let (_, e, _) = Distinct-split vs ((b, y) ∷ (a, t) ∷ bs) d in
        let here : (a == w.slot k) ≡ false =
          rw s (not_first vs b a y ((a, t) ∷ bs) d (ground arith)) in
        rw here (
          Returns-bind _ Cut (splice w.mem a) _ (splice-Spliced w.mem vs b a y t bs l d) λ g q.
            record {
              links = rw append_assoc q.0;
              slot_is = rw append_assoc (
                  s
                  ∙ first-append null vs ((b, y) ∷ (a, t) ∷ bs)
                  ∙ sym (first-append null vs ((b, y) ∷ bs)));
              distinct =
                  rw append_assoc
                    (Distinct-rear vs b y ((a, t) ∷ bs) bs d (λ p i. ground arith) (ground arith));
              slot_same = λ j ne. refl;
              same = λ p o. q.1 p (rw append_assoc at o);
              gone = q.2;
              cur_same = refl;
            })

  choose-Removed :
      (us bs : Cells) → Slot (us ++ (a, t) ∷ bs) → Returns (λ w'. Removed w k us a t bs w') choose
  choose-Removed us bs =
      rear_elim (λ us. Slot (us ++ (a, t) ∷ bs) → Returns (λ w'. Removed w k us a t bs w') choose)
        (front bs) (λ vs b y h. delete_middle vs b y bs (rw append_assoc at h)) us
    where
      front : (bs : Cells) → Slot ((a, t) ∷ bs) → Returns (λ w'. Removed w k [] a t bs w') choose
      front [] h = delete_only h
      front ((c, x) ∷ zs) h = delete_head c x zs h

delete_timer-choose :
    (w : TimeWheel) (k : ℕ) (a : Ptr) (t : TwTimer) (r : k < slots) (p q : Ptr)
    → a ≢ null
    → w.mem a ≡ some (node t p q)
    → t.time_slot ≡ k
    → delete_timer w a ≡ choose w k a t r
unfolding delete_timer
delete_timer-choose w k a t r p q ne held mark =
    let na : (a == null) ≡ false = ground arith in
    let in_range : ltb k slots ≡ true = ground arith in rw (na, held, mark, in_range) refl

All-without :
    (k : ℕ) (us : Cells) (a : Ptr) (t : TwTimer) (bs : Cells)
    → All (λ c. c.1.time_slot ≡ k) (us ++ (a, t) ∷ bs)
    → (t.time_slot ≡ k) × All (λ c. c.1.time_slot ≡ k) (us ++ bs)
All-without k [] a t bs h = (h.0, h.1)
All-without k (u ∷ us) a t bs h = let (m, r) = All-without k us a t bs h.1 in (m, (h.0, r))

has-without :
    (p : Ptr) (us : Cells) (a : Ptr) (t : TwTimer) (bs : Cells)
    → has p (us ++ (a, t) ∷ bs) ≡ false
    → has p (us ++ bs) ≡ false
has-without p us a t bs o = ground (arith, has-append p us ((a, t) ∷ bs), has-append p us bs)

Removed-IsWheel :
    (w : TimeWheel) (xs : ℕ → Cells) (k : ℕ) (us : Cells) (a : Ptr) (t : TwTimer) (bs : Cells)
    → IsWheel w xs
    → k < slots
    → xs k ≡ us ++ (a, t) ∷ bs
    → (w' : TimeWheel) → Removed w k us a t bs w'
    → IsWheel w' (put_at xs k (us ++ bs))
Removed-IsWheel w xs k us a t bs is r e w' h =
    let off : (j : ℕ) (p : Ptr)
        → j < slots
        → j ≢ k
        → has p (xs j) ≡ true
        → has p (us ++ (a, t) ∷ bs) ≡ false =
      λ j p q nj o. rw (← e) (is.apart j k p q r nj o) in
    replace-IsWheel w w' xs k (us ++ bs) is (record {
      cur_lt = rw h.cur_same is.cur_lt;
      slot_lt = r;
      links = h.links;
      distinct = h.distinct;
      slot_is = h.slot_is;
      marked = (All-without k us a t bs (rw e at (is.marked k r))).1;
      slot_same = h.slot_same;
      same = λ j p q nj o. h.same p (off j p q nj o);
      off = λ j p q nj o. has-without p us a t bs (off j p q nj o);
    })

-- What `delete_timer` promises of the node `a` in the slot `k`.
abbrev pub Deleted :
    TimeWheel → (ℕ → Cells) → ℕ → Cells → Ptr × TwTimer → Cells → TimeWheel → Type 0
Deleted w xs k us c bs w' =
    IsWheel w' (put_at xs k (us ++ bs))
    × SameOutside (us ++ c ∷ bs) w.mem w'.mem
    × (w'.mem c.0 ≡ none)
    × (w'.cur_slot ≡ w.cur_slot)

-- delete_timer on a well-formed wheel takes a timer out of its slot wherever it stands there,
-- deletes the node, and leaves the other timers, their order and the other slots as they are.
pub delete_timer-removes :
    (w : TimeWheel) (xs : ℕ → Cells) (k : ℕ) (us : Cells) (a : Ptr) (t : TwTimer) (bs : Cells)
    → IsWheel w xs
    → k < slots
    → xs k ≡ us ++ (a, t) ∷ bs
    → Returns (λ w'. Deleted w xs k us (a, t) bs w') (delete_timer w a)
delete_timer-removes w xs k us a t bs is r e =
    let l : Links w.mem null (us ++ (a, t) ∷ bs) null = rw e at (is.links k r) in
    let (_, here) = Links-split w.mem null null us ((a, t) ∷ bs) l in
    let mark = (All-without k us a t bs (rw e at (is.marked k r))).0 in
    rw (delete_timer-choose w k a t r _ _ here.0 here.1 mark) (
      Returns-then _ (λ w'. Deleted w xs k us (a, t) bs w') (choose w k a t r)
        (choose-Removed w k a t r us bs (l, rw e at (is.distinct k r), rw e at (is.slot_is k r)))
        λ w' h. (Removed-IsWheel w xs k us a t bs is r e w' h, h.same, h.gone, h.cur_same))
