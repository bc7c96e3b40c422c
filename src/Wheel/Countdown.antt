-- ===== src/Wheel/Countdown.antt =====
-- When a timer of the wheel is called back.
use mathlib.Core.Path.{subst}
use my_linux_demo.Base.{
  ℕ, zero, suc, ◌+◌, ◌*◌, ◌-◌, ◌%◌, ◌<◌, ◌≤◌, ◌≡◌, ◌≢◌, refl, inl, inr, true, false, Option, none,
  some, List, [], ◌∷◌, arith, ◌==◌, ==-eq, ==-ne, if◌then◌else◌, Bool-cases, Returns, Returns-bind,
  Returns-then, ◌>>=◌, length, map, ◌⊎◌, pos,
}
use my_linux_demo.Mem.{Ptr, null, Mem}
use my_linux_demo.Mem.Links.{has, Links}
use my_linux_demo.Wheel.{
  TwTimer, TimeWheel, Call, Alloc, slots, tw_timer, ticks_of, slot_of, tick, add_timer,
}
use my_linux_demo.Wheel.Spec.{Cells, IsWheel, put_at, fired, kept, turned, call_of}
use my_linux_demo.Wheel.Add.{new_timer, IsUnused, Added, add_timer-Added}
use my_linux_demo.Wheel.Tick.{Ticked, tick-Ticked}

-- The ticks that pass before the one that calls back a timer of the slot `i`, with `cur` current.
unfoldable pub countdown : ℕ → ℕ → TwTimer → ℕ
countdown cur i t = t.rotation * slots + (i + slots - cur) % slots

-- The timer at the address `a`.
unfoldable pub find : Ptr → Cells → Option TwTimer
find a [] = none
find a ((b, t) ∷ xs) = if a == b then some t else find a xs

-- A new timer counts the ticks of its timeout.
pub new_timer-countdown :
    (a : Alloc) (w : TimeWheel) (timeout : ℕ)
    → w.cur_slot < slots
    → countdown w.cur_slot (slot_of w (ticks_of timeout)) (new_timer a w timeout) ≡ ticks_of timeout
unfolding countdown slot_of tw_timer
new_timer-countdown a w timeout r = omega arith

find-kept :
    (a : Ptr) (t : TwTimer) (xs : Cells)
    → find a xs ≡ some t
    → 0 < t.rotation
    → find a (kept xs) ≡ some (turned t)
unfolding find kept
find-kept a t [] e r = cc
find-kept a t ((b, u) ∷ xs) e r = ground (arith, find-kept a t xs)

length-kept : (xs : Cells) → length (kept xs) ≤ length xs
unfolding kept
length-kept [] = omega arith
length-kept ((a, t) ∷ xs) = ground (arith, length-kept xs)

-- `n` ticks, one after the other.
unfoldable pub ticks : ℕ → ℕ → TimeWheel → Option TimeWheel
ticks fuel zero w = some w
ticks fuel (suc n) w = do (w', calls) ← tick fuel w; ticks fuel n w'

-- The timer `a` stands in the slot `i`, will call `call`, and `k` ticks pass before the one that
-- calls it back. No slot holds as many timers as the fuel.
pub record Waits (fuel : ℕ) (i a : ℕ) (call : Call) (k : ℕ) (w : TimeWheel) : Type 0 where
  pub cells : ℕ → Cells
  pub timer : TwTimer
  pub wheel : IsWheel w cells
  pub in_range : i < slots
  pub found : find a (cells i) ≡ some timer
  pub calls_back : (timer.cb_func, timer.user_data) ≡ call
  pub counts : countdown w.cur_slot i timer ≡ k
  pub fits : (j : ℕ) → length (cells j) < fuel

put_at-fits :
    (fuel cur : ℕ) (xs : ℕ → Cells)
    → ((j : ℕ) → length (xs j) < fuel)
    → (j : ℕ) → length (put_at xs cur (kept (xs cur)) j) < fuel
put_at-fits fuel cur xs f j = ground (arith, f j, f cur, length-kept (xs cur))

module _ (fuel i a : ℕ) (call : Call) (k : ℕ) (w : TimeWheel)
    (s : Waits fuel i a call (suc k) w) where
  Waits-here :
      (i == w.cur_slot) ≡ true
      → (w' : TimeWheel) (calls : List Call) → Ticked w s.cells (w', calls)
      → Waits fuel i a call k w'
  unfolding countdown
  Waits-here e w' calls (is, _, _, _, c) =
      let at_cur : find a (s.cells w.cur_slot) ≡ some s.timer =
        subst (λ j. find a (s.cells j) ≡ some s.timer) (==-eq _ _ e) s.found in
      let count = s.counts in
      let eq = ==-eq _ _ e in
      record {
        cells = put_at s.cells w.cur_slot (kept (s.cells w.cur_slot));
        timer = turned s.timer;
        wheel = is;
        in_range = s.in_range;
        found =
            rw e (
              find-kept a s.timer (s.cells w.cur_slot) at_cur
                (omega (arith, s.in_range, s.counts)));
        calls_back = s.calls_back;
        counts = omega (arith, s.in_range, s.counts);
        fits = put_at-fits fuel w.cur_slot s.cells s.fits;
      }

  Waits-elsewhere :
      (i == w.cur_slot) ≡ false
      → (w' : TimeWheel) (calls : List Call) → Ticked w s.cells (w', calls)
      → Waits fuel i a call k w'
  unfolding countdown
  Waits-elsewhere e w' calls (is, _, _, _, c) =
      let ne = ==-ne _ _ e in
      let count = s.counts in
      record {
        cells = put_at s.cells w.cur_slot (kept (s.cells w.cur_slot));
        timer = s.timer;
        wheel = is;
        in_range = s.in_range;
        found = rw e s.found;
        calls_back = s.calls_back;
        counts = omega (arith, s.in_range, s.counts, s.wheel.cur_lt);
        fits = put_at-fits fuel w.cur_slot s.cells s.fits;
      }

  tick-Waits : Returns (λ r. Waits fuel i a call k r.0) (tick fuel w)
  tick-Waits =
      Returns-then _ (λ r. Waits fuel i a call k r.0) (tick fuel w)
        (tick-Ticked fuel w s.cells s.wheel (s.fits w.cur_slot))
        λ r h. elim (Bool-cases (i == w.cur_slot)) [
          | inl e ↦ Waits-here e r.0 r.1 h
          | inr e ↦ Waits-elsewhere e r.0 r.1 h
        ]

-- On a well-formed wheel, with more fuel than timers in each slot, a timer with j + k ticks left
-- until its call has k left after j ticks, and is still allocated in its slot.
pub ticks-Waits :
    (j k fuel i a : ℕ) (call : Call) (w : TimeWheel)
    → Waits fuel i a call (j + k) w
    → Returns (Waits fuel i a call k) (ticks fuel j w)
unfolding ticks
ticks-Waits zero k fuel i a call w s =
    let e : 0 + k ≡ k = omega arith in subst (λ n. Waits fuel i a call n w) e s
ticks-Waits (suc j) k fuel i a call w s =
    let e : suc j + k ≡ suc (j + k) = omega arith in
    Returns-bind (λ r. Waits fuel i a call (j + k) r.0) (Waits fuel i a call k) (tick fuel w) _
      (tick-Waits fuel i a call (j + k) w (subst (λ n. Waits fuel i a call n w) e s))
      λ r h. ticks-Waits j k fuel i a call r.0 h

-- The call is one of those made.
abbrev pub IsMade : Call → List Call → Type 0
IsMade c [] = ⊥
IsMade c (d ∷ ds) = (c ≡ d) ⊎ IsMade c ds

find-fired :
    (a : Ptr) (t : TwTimer) (xs : Cells)
    → find a xs ≡ some t
    → t.rotation ≡ 0
    → (has a (fired xs) ≡ true) × IsMade (t.cb_func, t.user_data) (map call_of (fired xs))
unfolding find fired
find-fired a t [] e r = cc
find-fired a t ((b, u) ∷ xs) e r = ground (arith, find-fired a t xs)

-- The call has been made, and the node is gone.
abbrev pub Called : Ptr → Call → TimeWheel × List Call → Type 0
Called a call (w, calls) = IsMade call calls × (w.mem a ≡ none)

-- On a well-formed wheel, with more fuel than timers in each slot, a timer with no tick left is
-- called back and deleted by the next tick.
pub tick-Called :
    (fuel i a : ℕ) (call : Call) (w : TimeWheel)
    → Waits fuel i a call 0 w
    → Returns (λ r. Called a call r) (tick fuel w)
unfolding countdown
tick-Called fuel i a call w s =
    let here : i ≡ w.cur_slot = omega (arith, s.counts, s.in_range, s.wheel.cur_lt) in
    let at_cur : find a (s.cells w.cur_slot) ≡ some s.timer =
      subst (λ j. find a (s.cells j) ≡ some s.timer) here s.found in
    let (m, c) = find-fired a s.timer (s.cells w.cur_slot) at_cur (omega (arith, s.counts)) in
    Returns-then _ (λ r. Called a call r) (tick fuel w)
      (tick-Ticked fuel w s.cells s.wheel (s.fits w.cur_slot))
      λ r h. (
        rw (h.3) (subst (λ d. IsMade d (map call_of (fired (s.cells w.cur_slot)))) s.calls_back c),
        h.2 a m,
      )

held :
    (m : Mem TwTimer) (b a : Ptr) (t : TwTimer) (xs : Cells)
    → Links m b xs null
    → find a xs ≡ some t
    → m a ≢ none
unfolding find
held m b a t [] l e = cc
held m b a t ((c, u) ∷ xs) l e = ground (arith, held m c a t xs)

-- After `n` ticks the timer is still allocated, and the tick after them calls it back.
abbrev pub CalledAfter : ℕ → ℕ → Ptr → Call → TimeWheel → Type 0
CalledAfter fuel n a call w =
    Returns (λ w'. (w'.mem a ≢ none) × Returns (λ r. Called a call r) (tick fuel w'))
      (ticks fuel n w)

Waits-CalledAfter :
    (fuel n i a : ℕ) (call : Call) (w : TimeWheel)
    → Waits fuel i a call n w
    → CalledAfter fuel n a call w
Waits-CalledAfter fuel n i a call w s =
    let e : n ≡ n + 0 = omega arith in
    Returns-then (Waits fuel i a call 0)
      (λ w'. (w'.mem a ≢ none) × Returns (λ r. Called a call r) (tick fuel w')) (ticks fuel n w)
      (ticks-Waits n 0 fuel i a call w (subst (λ k. Waits fuel i a call k w) e s))
      λ w' h. (
        held w'.mem null a h.timer (h.cells i) (h.wheel.links i h.in_range) h.found,
        tick-Called fuel i a call w' h,
      )

Added-Waits :
    (a : Alloc) (w : TimeWheel) (xs : ℕ → Cells) (timeout fuel : ℕ)
    → w.cur_slot < slots
    → ((j : ℕ) → suc (length (xs j)) < fuel)
    → (w' : TimeWheel) (p : Option Ptr) → Added a w xs timeout (w', p)
    → Waits fuel
        (slot_of w (ticks_of timeout))
        a.address
        (a.cb_func, a.user_data)
        (ticks_of timeout)
        w'
Added-Waits a w xs timeout fuel r f w' p (is, _, c, _) =
    let k = slot_of w (ticks_of timeout) in
    let t = new_timer a w timeout in
    let same : (k == k) ≡ true = ground arith in
    record {
      cells = put_at xs k ((a.address, t) ∷ xs k);
      timer = t;
      wheel = is;
      in_range = unfold slot_of in omega arith;
      found = rw same (unfold find in ground arith);
      calls_back = unfold tw_timer in refl;
      counts = rw c (new_timer-countdown a w timeout r);
      fits = λ j. ground (arith, f j, f k);
    }

-- On a well-formed wheel, and with enough fuel for every slot, a timer made by add_timer at an
-- unused address with a timeout of n ticks stays allocated through the next n ticks, and the tick
-- after them calls it back and deletes it.
pub add_timer-CalledAfter :
    (a : Alloc) (w : TimeWheel) (xs : ℕ → Cells) (timeout fuel : ℕ)
    → IsWheel w xs
    → IsUnused a.address xs
    → ((j : ℕ) → suc (length (xs j)) < fuel)
    → Returns
        (λ r. CalledAfter fuel (ticks_of timeout) a.address (a.cb_func, a.user_data) r.0)
        (add_timer a w (pos timeout))
add_timer-CalledAfter a w xs timeout fuel is un f =
    Returns-then _ (λ r. CalledAfter fuel (ticks_of timeout) a.address (a.cb_func, a.user_data) r.0)
      (add_timer a w (pos timeout)) (add_timer-Added a w xs timeout is un)
      λ r h.
        Waits-CalledAfter fuel (ticks_of timeout) (slot_of w (ticks_of timeout)) a.address
          (a.cb_func, a.user_data) r.0 (Added-Waits a w xs timeout fuel is.cur_lt f r.0 r.1 h)
