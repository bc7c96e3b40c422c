-- ===== src/RwLock/Changes.antt =====
-- The changes of `a` in the reachable states.

use my_linux_demo.Base.{
  ℕ, zero, suc, ◌+◌, ◌-◌, ◌≤◌, ◌≡◌, refl, inl, inr, ◌⊎◌, ltb, Bool-cases, arith, IfReturns,
  IfReturns-bind, IfReturns-some, IfReturns-both,
}
use my_linux_demo.RwLock.{
  Mode, Place, waiting, holding, loaded, stored, noted, shown, ended, thread, System, raise, lower,
  Actor, the_main, the_son, step, Reach, start, next,
}
use my_linux_demo.RwLock.Invariant.{
  inside, is_write, IsLocked, IsLocked-swap, thread-IsLocked, AfterStep, init-IsLocked, at_most_one,
}
use my_linux_demo.RwLock.Value.{done, IsValue, main-IsValue, son-IsValue}

-- What holds in a reachable state.
abbrev IsSound : (mm sm : Mode) → System → Type 0
IsSound mm sm s =
    IsLocked mm sm s.shared s.main s.son
    × IsValue (is_write mm + is_write sm) s.shared.a s.main s.son

step-IsSound :
    (mm sm : Mode) (s : System) (x : Actor)
    → IsSound mm sm s
    → IfReturns (IsSound mm sm) (step mm sm s x)
unfolding step
step-IsSound mm sm s the_main (k, h) =
    IfReturns-bind
      (λ r. AfterStep mm sm s.son r × IsValue (is_write mm + is_write sm) r.0.a r.1 s.son)
      (IsSound mm sm) (thread mm lower s.shared s.main) _
      (IfReturns-both (AfterStep mm sm s.son) _ (thread mm lower s.shared s.main)
        (thread-IsLocked mm sm lower s.shared s.main s.son k)
        (main-IsValue mm sm s.shared s.main s.son k h))
      λ r g. g
step-IsSound mm sm s the_son (k, h) =
    IfReturns-bind
      (λ r. AfterStep sm mm s.main r × IsValue (is_write mm + is_write sm) r.0.a s.main r.1)
      (IsSound mm sm) (thread sm raise s.shared s.son) _
      (IfReturns-both (AfterStep sm mm s.main) _ (thread sm raise s.shared s.son)
        (thread-IsLocked sm mm raise s.shared s.son s.main
          (IsLocked-swap mm sm s.shared s.main s.son k))
        (son-IsValue mm sm s.shared s.main s.son k h))
      λ r (g, v). (IsLocked-swap sm mm r.0 r.1 s.main g, v)

reached-IsSound : (mm sm : Mode) (s : System) → Reach mm sm s → IsSound mm sm s
reached-IsSound mm sm _ start = (
  init-IsLocked mm sm,
  record {
    most = omega arith;
    before_main = λ e. omega arith;
    before_son = λ e. omega arith;
    seen_main = tt;
    seen_son = tt;
    exact = λ w. refl;
    same_main = λ w. tt;
    same_son = λ w. tt;
  },
)
reached-IsSound mm sm t (next {s = s} x r e) =
    IfReturns-some (IsSound mm sm) (step mm sm s x) t
      (step-IsSound mm sm s x (reached-IsSound mm sm s r)) e

-- How many changes can be lost: none where a thread writes.
abbrev pub spare : Mode → Mode → ℕ
spare mm sm = 1 - (is_write mm + is_write sm)

done-le : (p : Place) → done p ≤ 1
done-le waiting = omega arith
done-le holding = omega arith
done-le (loaded v) = omega arith
done-le stored = omega arith
done-le (noted v) = omega arith
done-le shown = omega arith
done-le ended = omega arith

zero-or-one : (n : ℕ) → n ≤ 1 → (n ≡ 0) ⊎ (n ≡ 1)
zero-or-one zero l = inl refl
zero-or-one (suc n) l = inr (omega arith)

within-IsValue :
    (alone a : ℕ) (p q : Place)
    → IsValue alone a p q
    → (a + done p ≤ 1 + done q + 1) × (1 + done q ≤ a + done p + 1)
within-IsValue alone a p q h = (
  elim (zero-or-one (done q) (done-le q)) [
    | inl before ↦ omega (arith, before, h.before_son before, done-le p)
    | inr after ↦ omega (arith, after, h.most, done-le p)
  ],
  elim (zero-or-one (done p) (done-le p)) [
    | inl before ↦ omega (arith, before, h.before_main before, done-le q)
    | inr after ↦ omega (arith, after, done-le q)
  ],
)

-- In every reachable state of the two threads, in whatever modes they lock: a differs from 1,
-- lowered once main has written it and raised once the son has, by at most 1, and not at all where
-- one of them locks for writing; then at most one of them is between its lock and its unlock.
pub changes_kept :
    (mm sm : Mode) (s : System)
    → Reach mm sm s
    → (s.shared.a + done s.main ≤ 1 + done s.son + spare mm sm)
      × (1 + done s.son ≤ s.shared.a + done s.main + spare mm sm)
      × (inside s.main + inside s.son ≤ 1 + spare mm sm)
changes_kept mm sm s r =
    let (k, h) = reached-IsSound mm sm s r in
    let (above, below) = within-IsValue (is_write mm + is_write sm) s.shared.a s.main s.son h in
    elim (Bool-cases (ltb 0 (is_write mm + is_write sm))) [
      | inl some_write ↦
          let w : 1 ≤ is_write mm + is_write sm = ground arith in
          (omega (arith, h.exact w), omega (arith, h.exact w), omega (arith, k.alone w))
      | inr none ↦
          let w : is_write mm + is_write sm ≡ 0 = ground arith in
          (
            omega (arith, above, w),
            omega (arith, below, w),
            omega (arith, w, at_most_one s.main, at_most_one s.son),
          )
    ]
