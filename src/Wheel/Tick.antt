-- ===== src/Wheel/Tick.antt =====
-- `tick`: what one visit to a slot does to the whole wheel.
use mathlib.Core.Path.{subst}
use mathlib.Core.List.{append_assoc}
use my_linux_demo.Base.{
  ℕ, zero, suc, ◌+◌, ◌%◌, ◌<◌, ◌≡◌, ◌≢◌, refl, sym, ap, ◌∙◌, inl, inr, true, false, none, List, [],
  ◌∷◌, ◌++◌, arith, ltb, ◌==◌, Bool-cases, Returns, Returns-bind, length, map, All,
}
use my_linux_demo.Mem.{Ptr, null, Mem}
use my_linux_demo.Mem.Links.{first, has, has-append, Distinct, Links-split}
use my_linux_demo.Mem.Split.{SameOutside, Freed}
use my_linux_demo.Wheel.{TwTimer, TimeWheel, Call, spin, slots, tick_loop, tick}
use my_linux_demo.Wheel.Spec.{Cells, IsWheel, put_at, fired, kept, turned, call_of}
use my_linux_demo.Wheel.Replace.{replace-IsWheel}
use my_linux_demo.Wheel.Sweep.{
  SlotHolds, Local, Local-trans, elsewhere, has-without, expire, Removed, expire-Removed,
  spin-SlotHolds,
}

-- What the loop promises at the node behind `us`, with `rs` still to visit.
abbrev Swept : TimeWheel → Cells → Cells → TimeWheel × List Call → Type 0
Swept w us rs (w', calls) =
    SlotHolds w' (us ++ kept rs)
    × Local (us ++ rs) w w'
    × Freed (fired rs) w'.mem
    × (calls ≡ map call_of (fired rs))

Freed-cons :
    (a : Ptr) (t : TwTimer) (xs : Cells) (m : Mem TwTimer)
    → m a ≡ none
    → Freed xs m
    → Freed ((a, t) ∷ xs) m
Freed-cons a t xs m gone freed p i = ground (arith, freed p)

has-turned :
    (p : Ptr) (us : Cells) (a : Ptr) (t : TwTimer) (bs : Cells)
    → has p (us ++ (a, t) ∷ bs) ≡ false
    → has p (us ++ (a, turned t) ∷ bs) ≡ false
has-turned p us a t bs o =
    ground (arith, has-append p us ((a, t) ∷ bs), has-append p us ((a, turned t) ∷ bs))

module _ (w w₁ : TimeWheel) (us : Cells) (a : Ptr) (t : TwTimer) (rs : Cells) where
  Swept-spin :
      ltb 0 t.rotation ≡ true
      → Local (us ++ (a, t) ∷ rs) w w₁
      → (w' : TimeWheel) (calls : List Call) → Swept w₁ (us ++ (a, turned t) ∷ []) rs (w', calls)
      → Swept w us ((a, t) ∷ rs) (w', calls)
  unfolding kept fired
  Swept-spin more l w' calls (h, k, freed, e) = rw more (
    rw append_assoc at h,
    Local-trans _ _ w w₁ w' (λ p o. rw append_assoc (has-turned p us a t rs o)) l k,
    freed,
    e,
  )

  Swept-expire :
      ltb 0 t.rotation ≡ false
      → Distinct (us ++ (a, t) ∷ rs)
      → Removed w us (a, t) rs w₁
      → (w' : TimeWheel) (calls : List Call) → Swept w₁ us rs (w', calls)
      → Swept w us ((a, t) ∷ rs) (w', (t.cb_func, t.user_data) ∷ calls)
  unfolding kept fired
  Swept-expire old d (_, l, gone) w' calls (h, k, freed, e) = rw old (
    h,
    Local-trans _ _ w w₁ w' (λ p o. has-without p us a t rs o) l k,
    Freed-cons a t (fired rs) w'.mem (k.same a (elsewhere us a t rs d) ∙ gone) freed,
    ap (λ (c : List Call). (t.cb_func, t.user_data) ∷ c) e,
  )

tick_loop-Swept :
    (fuel : ℕ) (w : TimeWheel) (us rs : Cells)
    → SlotHolds w (us ++ rs)
    → length rs < fuel
    → Returns (λ r. Swept w us rs r) (tick_loop fuel w (first rs null))
unfolding tick_loop
tick_loop-Swept zero w us rs h f = absurd (omega arith)
tick_loop-Swept (suc fuel) w us [] h f =
    unfold kept fired in
    (h, record { cur_same = refl; slot_same = λ j ne. refl; same = λ p o. refl }, λ p i. cc, refl)
tick_loop-Swept (suc fuel) w us ((a, t) ∷ rs) h f =
    let (_, k) = Links-split w.mem null null us ((a, t) ∷ rs) h.links in
    let na : (a == null) ≡ false = ground arith in
    let in_range : ltb w.cur_slot slots ≡ true = ground (arith, h.cur_lt) in
    rw (na, k.1, in_range)
      (elim (Bool-cases (ltb 0 t.rotation)) [
        | inl more ↦ rw more (
            Returns-bind _ (λ r. Swept w us ((a, t) ∷ rs) r) (spin w a) _
              (spin-SlotHolds w us a t rs h)
              λ w₁ (h₁, l).
                Returns-bind (λ r. Swept w₁ (us ++ (a, turned t) ∷ []) rs r)
                  (λ r. Swept w us ((a, t) ∷ rs) r) (tick_loop fuel w₁ (first rs null)) _
                  (tick_loop-Swept fuel w₁ (us ++ (a, turned t) ∷ []) rs (rw append_assoc h₁)
                    (omega arith))
                  λ r q. Swept-spin w w₁ us a t rs more l r.0 r.1 q)
        | inr old ↦ rw old (
            Returns-bind _ (λ r. Swept w us ((a, t) ∷ rs) r) (expire w a) _
              (expire-Removed w a t us rs h)
              λ w₁ d.
                Returns-bind (λ r. Swept w₁ us rs r) (λ r. Swept w us ((a, t) ∷ rs) r)
                  (tick_loop fuel w₁ (first rs null)) _
                  (tick_loop-Swept fuel w₁ us rs d.0 (omega arith))
                  λ r q. Swept-expire w w₁ us a t rs old h.distinct d r.0 r.1 q)
      ])

has-kept : (p : Ptr) (xs : Cells) → has p (kept xs) ≡ true → has p xs ≡ true
unfolding kept
has-kept p [] i = i
has-kept p ((a, t) ∷ xs) i = ground (arith, has-kept p xs)

not-has-kept : (p : Ptr) (xs : Cells) → has p xs ≡ false → has p (kept xs) ≡ false
not-has-kept p xs o = ground (arith, has-kept p xs)

All-kept :
    (i : ℕ) (xs : Cells) → All (λ c. c.1.time_slot ≡ i) xs → All (λ c. c.1.time_slot ≡ i) (kept xs)
unfolding kept
All-kept i [] h = tt
All-kept i ((a, t) ∷ xs) h = ground (arith, All-kept i xs)

-- After the visit the slot holds its `kept` timers, and the other slots what they held.
Local-IsWheel :
    (w w' : TimeWheel) (xs : ℕ → Cells)
    → IsWheel w xs
    → SlotHolds w' (kept (xs w.cur_slot))
    → Local (xs w.cur_slot) w w'
    → IsWheel
        (record w' { cur_slot = (w'.cur_slot + 1) % slots })
        (put_at xs w.cur_slot (kept (xs w.cur_slot)))
Local-IsWheel w w' xs is h l =
    let k = w.cur_slot in
    let off : (j : ℕ) (p : Ptr) → j < slots → j ≢ k → has p (xs j) ≡ true → has p (xs k) ≡ false =
      λ j p r ne o. is.apart j k p r is.cur_lt ne o in
    replace-IsWheel w (record w' { cur_slot = (w'.cur_slot + 1) % slots }) xs k (kept (xs k)) is
      (record {
        cur_lt = omega arith;
        slot_lt = is.cur_lt;
        links = h.links;
        distinct = h.distinct;
        slot_is = ap w'.slot (sym l.cur_same) ∙ h.slot_is;
        marked = All-kept k (xs k) (is.marked k is.cur_lt);
        slot_same = l.slot_same;
        same = λ j p r ne o. l.same p (off j p r ne o);
        off = λ j p r ne o. not-has-kept p (xs k) (off j p r ne o);
      })

-- What a tick makes of a wheel, with the calls.
abbrev pub Ticked : TimeWheel → (ℕ → Cells) → TimeWheel × List Call → Type 0
Ticked w xs (w', calls) =
    IsWheel w' (put_at xs w.cur_slot (kept (xs w.cur_slot)))
    × SameOutside (xs w.cur_slot) w.mem w'.mem
    × Freed (fired (xs w.cur_slot)) w'.mem
    × (calls ≡ map call_of (fired (xs w.cur_slot)))
    × (w'.cur_slot ≡ (w.cur_slot + 1) % slots)

-- On a well-formed wheel, with more fuel than timers in the current slot, a tick calls back in
-- order and deletes the timers of the current slot that have no rounds left, takes one round from
-- its others, leaves the other slots and nodes as they are, moves on by one slot, and keeps the
-- wheel well-formed.
pub tick-Ticked :
    (fuel : ℕ) (w : TimeWheel) (xs : ℕ → Cells)
    → IsWheel w xs
    → length (xs w.cur_slot) < fuel
    → Returns (λ r. Ticked w xs r) (tick fuel w)
unfolding tick
tick-Ticked fuel w xs is f =
    let in_range : ltb w.cur_slot slots ≡ true = ground (arith, is.cur_lt) in
    let here = is.slot_is w.cur_slot is.cur_lt in
    let h : SlotHolds w (xs w.cur_slot) = record {
      cur_lt = is.cur_lt;
      links = is.links w.cur_slot is.cur_lt;
      distinct = is.distinct w.cur_slot is.cur_lt;
      slot_is = here;
    } in
    rw in_range (
      Returns-bind (λ r. Swept w [] (xs w.cur_slot) r) (λ r. Ticked w xs r)
        (tick_loop fuel w (w.slot w.cur_slot)) _
        (subst (λ p. Returns (λ r. Swept w [] (xs w.cur_slot) r) (tick_loop fuel w p)) (sym here)
          (tick_loop-Swept fuel w [] (xs w.cur_slot) h f))
        λ r q. (
          Local-IsWheel w r.0 xs is q.0 q.1,
          q.1.same,
          q.2,
          q.3,
          ap (λ (c : ℕ). (c + 1) % slots) q.1.cur_same,
        ))
