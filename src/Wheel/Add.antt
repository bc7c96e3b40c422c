-- ===== src/Wheel/Add.antt =====
-- `add_timer` of the wheel.
use my_linux_demo.Base.{
  ℕ, ◌/◌, ◌<◌, ◌≡◌, ◌≢◌, refl, true, false, Option, some, [], ◌∷◌, arith, ◌==◌, Returns,
  Returns-bind, pos,
}
use my_linux_demo.Mem.{Ptr, null, node, update}
use my_linux_demo.Mem.Links.{first, has, Distinct, Links, Links-frame}
use my_linux_demo.Mem.Split.{SameOutside}
use my_linux_demo.Wheel.{
  TwTimer, TimeWheel, Alloc, slots, set_slot, tw_timer, ticks_of, slot_of, push_slot, add_timer,
}
use my_linux_demo.Wheel.Spec.{Cells, IsWheel, put_at}
use my_linux_demo.Wheel.Replace.{replace-IsWheel}

-- The timer that `add_timer` makes.
abbrev pub new_timer : Alloc → TimeWheel → ℕ → TwTimer
new_timer a w timeout =
    (tw_timer a (ticks_of timeout / slots) (slot_of w (ticks_of timeout))).payload

-- An address that no slot holds.
pub record IsUnused (a : Ptr) (xs : ℕ → Cells) : Type 0 where
  pub ne_null : a ≢ null
  pub outside : (i : ℕ) → i < slots → has a (xs i) ≡ false

-- The new node is in the heap, and stands in no list yet.
abbrev made : TimeWheel → Ptr → TwTimer → TimeWheel
made w a t = record w { mem = update w.mem a (some (node t null null)) }

-- What `push_slot` promises of a slot `k` that holds `ys`.
record Pushed (w : TimeWheel) (k : ℕ) (a : Ptr) (t : TwTimer) (ys : Cells) (w' : TimeWheel)
    : Type 0 where
  links : Links w'.mem null ((a, t) ∷ ys) null
  slot_is : w'.slot k ≡ a
  slot_same : (j : ℕ) → (j == k) ≡ false → w'.slot j ≡ w.slot j
  same : SameOutside ((a, t) ∷ ys) w.mem w'.mem
  cur_same : w'.cur_slot ≡ w.cur_slot

module _ (w : TimeWheel) (k : ℕ) (a : Ptr) (t : TwTimer) (r : k < slots) (ne : a ≢ null) where
  push_slot-Pushed :
      (ys : Cells)
      → Links w.mem null ys null
      → Distinct ys
      → has a ys ≡ false
      → w.slot k ≡ first ys null
      → Returns (λ w'. Pushed w k a t ys w') (push_slot (made w a t) k a)
  push_slot-Pushed [] l d o s =
      let w' : TimeWheel = record {
        mem = (made w a t).mem;
        slot = set_slot w.slot k a;
        cur_slot = w.cur_slot;
      } in
      let run : push_slot (made w a t) k a ≡ some w' = unfold push_slot in ground arith in
      rw run (record {
        links = ground arith;
        slot_is = ground arith;
        slot_same = λ j nj. ground arith;
        same = λ p q. ground arith;
        cur_same = refl;
      })
  push_slot-Pushed ((c, x) ∷ zs) l d o s =
      let g =
        update (update (made w a t).mem a (some (node t null c))) c
          (some (node x a (first zs null))) in
      let w' : TimeWheel = record { mem = g; slot = set_slot w.slot k a; cur_slot = w.cur_slot } in
      let run : push_slot (made w a t) k a ≡ some w' = unfold push_slot in ground arith in
      rw run (record {
        links = ground (arith, Links-frame w.mem g c null zs l.2 λ p i. ground arith);
        slot_is = ground arith;
        slot_same = λ j nj. ground arith;
        same = λ p q. ground arith;
        cur_same = refl;
      })

  Pushed-IsWheel :
      (xs : ℕ → Cells)
      → IsWheel w xs
      → IsUnused a xs
      → t.time_slot ≡ k
      → (w' : TimeWheel) → Pushed w k a t (xs k) w'
      → IsWheel w' (put_at xs k ((a, t) ∷ xs k))
  Pushed-IsWheel xs is un mark w' h =
      let off : (j : ℕ) (p : Ptr)
          → j < slots
          → j ≢ k
          → has p (xs j) ≡ true
          → has p ((a, t) ∷ xs k) ≡ false =
        λ j p q nj o. ground (arith, is.apart j k p q r nj, un.outside j) in
      replace-IsWheel w w' xs k ((a, t) ∷ xs k) is (record {
        cur_lt = rw h.cur_same is.cur_lt;
        slot_lt = r;
        links = h.links;
        distinct = (un.outside k r, is.distinct k r);
        slot_is = h.slot_is;
        marked = (mark, is.marked k r);
        slot_same = h.slot_same;
        same = λ j p q nj o. h.same p (off j p q nj o);
        off = off;
      })

-- What `add_timer` promises: a new timer at the front of its slot.
abbrev pub Added : Alloc → TimeWheel → (ℕ → Cells) → ℕ → TimeWheel × Option Ptr → Type 0
Added a w xs timeout (w', p) =
    let k = slot_of w (ticks_of timeout) in
    IsWheel w' (put_at xs k ((a.address, new_timer a w timeout) ∷ xs k))
    × SameOutside ((a.address, new_timer a w timeout) ∷ xs k) w.mem w'.mem
    × (w'.cur_slot ≡ w.cur_slot)
    × (p ≡ some a.address)

-- add_timer on a well-formed wheel, with a timeout that is not negative and an address that no
-- slot holds, puts a new timer at the front of the slot that its timeout leads to, leaves all
-- other slots and nodes as they are, keeps the wheel well-formed, and returns the new node.
pub add_timer-Added :
    (a : Alloc) (w : TimeWheel) (xs : ℕ → Cells) (timeout : ℕ)
    → IsWheel w xs
    → IsUnused a.address xs
    → Returns (λ r. Added a w xs timeout r) (add_timer a w (pos timeout))
unfolding add_timer
add_timer-Added a w xs timeout is un =
    let k = slot_of w (ticks_of timeout) in
    let t = new_timer a w timeout in
    let r : k < slots = unfold slot_of in omega arith in
    let whole : tw_timer a (ticks_of timeout / slots) k ≡ node t null null =
      unfold tw_timer in refl in
    rw whole (
      Returns-bind (λ w'. Pushed w k a.address t (xs k) w') (λ r. Added a w xs timeout r)
        (push_slot (made w a.address t) k a.address) _
        (push_slot-Pushed w k a.address t r un.ne_null (xs k) (is.links k r) (is.distinct k r)
          (un.outside k r) (is.slot_is k r))
        λ w' h. (
          Pushed-IsWheel w k a.address t r un.ne_null xs is un (unfold tw_timer in refl) w' h,
          h.same,
          h.cur_same,
          refl,
        ))
