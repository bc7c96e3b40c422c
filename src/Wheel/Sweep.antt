-- ===== src/Wheel/Sweep.antt =====
-- The loop of `tick` over the nodes of one slot.

use mathlib.Core.List.{append_assoc}
use my_linux_demo.Base.{
  ℕ, ◌<◌, ◌≡◌, refl, sym, ◌∙◌, true, false, Option, none, some, [], ◌∷◌, ◌++◌, arith, ◌==◌,
  if◌then◌else◌, Returns, Returns-bind,
}
use my_linux_demo.Mem.{Ptr, null, node, update}
use my_linux_demo.Mem.Links.{
  first, last, has, has-append, first-append, Distinct, Links, Links-frame, Links-split,
  Links-append,
}
use my_linux_demo.Mem.Split.{
  SameOutside, SameOutside-append, Distinct-split, Distinct-append, Distinct-rear, not_first,
  rear_elim,
}
use my_linux_demo.Wheel.{
  TwTimer, TimeWheel, splice, spin, expire_first, delete_inner, slots, set_slot,
}
use my_linux_demo.Wheel.Spec.{Cells, turned}
use my_linux_demo.Wheel.Splice.{splice-Spliced}

-- The current slot holds the timers `xs`.
pub record SlotHolds (w : TimeWheel) (xs : Cells) : Type 0 where
  pub cur_lt : w.cur_slot < slots
  pub links : Links w.mem null xs null
  pub distinct : Distinct xs
  pub slot_is : w.slot w.cur_slot ≡ first xs null

-- Nothing but the current slot and its nodes `xs` has changed.
pub record Local (xs : Cells) (w w' : TimeWheel) : Type 0 where
  pub cur_same : w'.cur_slot ≡ w.cur_slot
  pub slot_same : (j : ℕ) → (j == w.cur_slot) ≡ false → w'.slot j ≡ w.slot j
  pub same : SameOutside xs w.mem w'.mem

pub Local-trans :
    (xs ys : Cells) (w w' w'' : TimeWheel)
    → ((p : Ptr) → has p xs ≡ false → has p ys ≡ false)
    → Local xs w w'
    → Local ys w' w''
    → Local xs w w''
Local-trans xs ys w w' w'' sub k l = record {
  cur_same = l.cur_same ∙ k.cur_same;
  slot_same = λ j ne. l.slot_same j (rw k.cur_same ne) ∙ k.slot_same j ne;
  same = λ p o. l.same p (sub p o) ∙ k.same p o;
}

pub elsewhere :
    (us : Cells) (a : Ptr) (t : TwTimer) (bs : Cells)
    → Distinct (us ++ (a, t) ∷ bs)
    → has a (us ++ bs) ≡ false
elsewhere [] a t bs d = d.0
elsewhere ((u, x) ∷ us) a t bs d =
    ground (arith, elsewhere us a t bs, has-append u us ((a, t) ∷ bs))

pub has-without :
    (p : Ptr) (us : Cells) (a : Ptr) (t : TwTimer) (bs : Cells)
    → has p (us ++ (a, t) ∷ bs) ≡ false
    → has p (us ++ bs) ≡ false
has-without p us a t bs o = ground (arith, has-append p us ((a, t) ∷ bs), has-append p us bs)

-- One round of the loop on an expired timer.
abbrev pub expire : TimeWheel → Ptr → Option TimeWheel
expire w a = if a == w.slot w.cur_slot then expire_first w a else delete_inner w a

abbrev pub Removed : TimeWheel → Cells → Ptr × TwTimer → Cells → TimeWheel → Type 0
Removed w us c bs w' = SlotHolds w' (us ++ bs) × Local (us ++ c ∷ bs) w w' × (w'.mem c.0 ≡ none)

module _ (w : TimeWheel) (a : Ptr) (t : TwTimer) where
  expire-only : SlotHolds w ((a, t) ∷ []) → Returns (λ w'. Removed w [] (a, t) [] w') (expire w a)
  expire-only h =
      let here : (a == w.slot w.cur_slot) ≡ true = ground (arith, h.slot_is) in
      let w' : TimeWheel = record {
        mem = update w.mem a none;
        slot = set_slot w.slot w.cur_slot null;
        cur_slot = w.cur_slot;
      } in
      let run : expire_first w a ≡ some w' = unfold expire_first in ground (arith, h.links) in
      rw (here, run)
        (
          record { cur_lt = h.cur_lt; links = tt; distinct = tt; slot_is = ground arith },
          record { cur_same = refl; slot_same = λ j ne. ground arith; same = λ p o. ground arith },
          ground arith,
        )

  expire-head :
      (c : Ptr) (x : TwTimer) (zs : Cells)
      → SlotHolds w ((a, t) ∷ (c, x) ∷ zs)
      → Returns (λ w'. Removed w [] (a, t) ((c, x) ∷ zs) w') (expire w a)
  expire-head c x zs h =
      let here : (a == w.slot w.cur_slot) ≡ true = ground (arith, h.slot_is) in
      let g = update (update w.mem a none) c (some (node x null (first zs null))) in
      let w' : TimeWheel = record {
        mem = g;
        slot = set_slot w.slot w.cur_slot c;
        cur_slot = w.cur_slot;
      } in
      let run : expire_first w a ≡ some w' =
        unfold expire_first in ground (arith, h.links, h.distinct) in
      rw (here, run)
        (
          record {
            cur_lt = h.cur_lt;
            links = ground (
              arith,
              h.links,
              h.distinct,
              Links-frame w.mem g c null zs h.links.2.2 λ p i. ground (arith, h.distinct),
            );
            distinct = h.distinct.1;
            slot_is = ground arith;
          },
          record { cur_same = refl; slot_same = λ j ne. ground arith; same = λ p o. ground arith },
          ground (arith, h.distinct),
        )

  module _ (vs : Cells) (b : Ptr) (y : TwTimer) (bs : Cells)
      (h : SlotHolds w (vs ++ (b, y) ∷ (a, t) ∷ bs)) where
    abbrev RemovedInner : TimeWheel → Type 0
    RemovedInner w' =
        SlotHolds w' (vs ++ (b, y) ∷ bs)
        × Local (vs ++ (b, y) ∷ (a, t) ∷ bs) w w'
        × (w'.mem a ≡ none)

    rear-Distinct : Distinct ((b, y) ∷ (a, t) ∷ bs)
    rear-Distinct = (Distinct-split vs ((b, y) ∷ (a, t) ∷ bs) h.distinct).1

    delete_inner-removes : Returns RemovedInner (delete_inner w a)
    unfolding delete_inner
    delete_inner-removes =
        Returns-bind _ RemovedInner (splice w.mem a) _
          (splice-Spliced w.mem vs b a y t bs h.links h.distinct)
          λ g r. (
            record {
              cur_lt = h.cur_lt;
              links = r.0;
              distinct =
                  Distinct-rear vs b y ((a, t) ∷ bs) bs h.distinct (λ p i. ground arith)
                    (ground (arith, rear-Distinct));
              slot_is =
                  h.slot_is
                  ∙ first-append null vs ((b, y) ∷ (a, t) ∷ bs)
                  ∙ sym (first-append null vs ((b, y) ∷ bs));
            },
            record { cur_same = refl; slot_same = λ j ne. refl; same = r.1 },
            r.2,
          )

    expire-inner : Returns RemovedInner (expire w a)
    expire-inner =
        let here : (a == w.slot w.cur_slot) ≡ false =
          rw h.slot_is (not_first vs b a y ((a, t) ∷ bs) h.distinct (ground arith)) in
        rw here delete_inner-removes

  pub expire-Removed :
      (us bs : Cells)
      → SlotHolds w (us ++ (a, t) ∷ bs)
      → Returns (λ w'. Removed w us (a, t) bs w') (expire w a)
  expire-Removed us bs =
      rear_elim
        (λ us.
          SlotHolds w (us ++ (a, t) ∷ bs) → Returns (λ w'. Removed w us (a, t) bs w') (expire w a))
        (expire-front bs)
        (λ vs b y h. simp append_assoc (expire-inner vs b y bs (rw append_assoc at h))) us
    where
      expire-front :
          (bs : Cells)
          → SlotHolds w ((a, t) ∷ bs)
          → Returns (λ w'. Removed w [] (a, t) bs w') (expire w a)
      expire-front [] h = expire-only h
      expire-front ((c, x) ∷ zs) h = expire-head c x zs h

-- One round of the loop on a timer with rounds left.
pub spin-SlotHolds :
    (w : TimeWheel) (us : Cells) (a : Ptr) (t : TwTimer) (bs : Cells)
    → SlotHolds w (us ++ (a, t) ∷ bs)
    → Returns
        (λ w'. SlotHolds w' (us ++ (a, turned t) ∷ bs) × Local (us ++ (a, t) ∷ bs) w w')
        (spin w a)
spin-SlotHolds w us a t bs h =
    let (_, k) = Links-split w.mem null null us ((a, t) ∷ bs) h.links in
    let (d, e, out) = Distinct-split us ((a, t) ∷ bs) h.distinct in
    let g = update w.mem a (some (node (turned t) (last us null) (first bs null))) in
    let w' : TimeWheel = record w { mem = g } in
    let run : spin w a ≡ some w' = unfold spin in ground arith in
    let same : SameOutside ((a, t) ∷ bs) w.mem g = λ p o. ground arith in
    let (front, _) = Links-split w.mem null null us ((a, t) ∷ bs) h.links in
    rw run (
      record {
        cur_lt = h.cur_lt;
        links =
            Links-append g null null us ((a, turned t) ∷ bs)
              (Links-frame w.mem g null a us front λ p i. same p (out p i))
              (k.0, ground arith, Links-frame w.mem g a null bs k.2 λ p i. ground arith);
        distinct = Distinct-append us ((a, turned t) ∷ bs) d e out;
        slot_is =
            h.slot_is
            ∙ first-append null us ((a, t) ∷ bs)
            ∙ sym (first-append null us ((a, turned t) ∷ bs));
      },
      record {
        cur_same = refl;
        slot_same = λ j ne. refl;
        same = SameOutside-append us _ w.mem g same;
      },
    )
