-- ===== src/RwLock/Value.antt =====
-- The value of `a`.
use mathlib.Core.Path.{subst}
use my_linux_demo.Base.{
  ℕ, ◌+◌, ◌≤◌, ◌≡◌, refl, sym, ◌∙◌, inl, inr, ◌||◌, ltb, Bool-cases, arith, IfReturns,
  IfReturns-bind,
}
use my_linux_demo.RwLock.{
  Mode, read, write, Shared, Place, waiting, holding, loaded, stored, noted, shown, ended, lock,
  unlock, thread, raise, lower,
}
use my_linux_demo.RwLock.Invariant.{inside, is_write, IsLocked}

-- 1 for a thread that has written `a`.
abbrev pub done : Place → ℕ
done waiting = 0
done holding = 0
done (loaded v) = 0
done stored = 1
done (noted v) = 1
done shown = 1
done ended = 1

-- What a thread has read of `a` and not yet used.
abbrev pub Seen : Place → (ℕ → Type 0) → Type 0
Seen (loaded v) P = P v
Seen p P = Unit

-- The value with main at `p` and the son at `q`: in any modes, and where one of them is `write`.
pub record IsValue (alone : ℕ) (a : ℕ) (p q : Place) : Type 0 where
  pub most : a ≤ 2
  pub before_main : done p ≡ 0 → 1 ≤ a
  pub before_son : done q ≡ 0 → a ≤ 1
  pub seen_main : Seen p (λ v. (1 ≤ v) × (v ≤ 2))
  pub seen_son : Seen q (λ v. v ≤ 1)
  pub exact : 1 ≤ alone → a + done p ≡ 1 + done q
  pub same_main : 1 ≤ alone → Seen p (λ v. v ≡ a)
  pub same_son : 1 ≤ alone → Seen q (λ v. v ≡ a)

-- Who is not inside has nothing to use.
unseen : (p : Place) (P : ℕ → Type 0) → inside p ≤ 0 → Seen p P
unseen waiting P l = tt
unseen holding P l = tt
unseen (loaded v) P l = absurd (omega arith)
unseen stored P l = tt
unseen (noted v) P l = tt
unseen shown P l = tt
unseen ended P l = tt

lock-a : (m : Mode) (s : Shared) → IfReturns (λ s'. s'.a ≡ s.a) (lock m s)
unfolding lock
lock-a read s = elim (Bool-cases s.writer) [ inl taken ↦ simp taken tt | inr free ↦ simp free refl ]
lock-a write s = elim (Bool-cases (s.writer || ltb 0 s.readers)) [
  | inl taken ↦ simp taken tt
  | inr free ↦ simp free refl
]

unlock-a : (m : Mode) (s : Shared) → (unlock m s).a ≡ s.a
unfolding unlock
unlock-a read s = refl
unlock-a write s = refl

-- A thread at a place where it has nothing to use goes to another one.
main_goes :
    (alone a : ℕ) (p p' q : Place)
    → done p ≡ done p'
    → ((P : ℕ → Type 0) → Seen p' P)
    → IsValue alone a p q
    → IsValue alone a p' q
main_goes alone a p p' q e none h = record {
  most = h.most;
  before_main = λ d. h.before_main (e ∙ d);
  before_son = h.before_son;
  seen_main = none (λ v. (1 ≤ v) × (v ≤ 2));
  seen_son = h.seen_son;
  exact = λ w. omega (arith, e, h.exact w);
  same_main = λ w. none (λ v. v ≡ a);
  same_son = h.same_son;
}

son_goes :
    (alone a : ℕ) (p q q' : Place)
    → done q ≡ done q'
    → ((P : ℕ → Type 0) → Seen q' P)
    → IsValue alone a p q
    → IsValue alone a p q'
son_goes alone a p q q' e none h = record {
  most = h.most;
  before_main = h.before_main;
  before_son = λ d. h.before_son (e ∙ d);
  seen_main = h.seen_main;
  seen_son = none (λ v. v ≤ 1);
  exact = λ w. omega (arith, e, h.exact w);
  same_main = h.same_main;
  same_son = λ w. none (λ v. v ≡ a);
}

pub main-IsValue :
    (mm sm : Mode) (s : Shared) (p q : Place)
    → IsLocked mm sm s p q
    → IsValue (is_write mm + is_write sm) s.a p q
    → IfReturns (λ r. IsValue (is_write mm + is_write sm) r.0.a r.1 q) (thread mm lower s p)
unfolding thread
main-IsValue mm sm s waiting q k h =
    IfReturns-bind (λ s'. s'.a ≡ s.a) (λ r. IsValue (is_write mm + is_write sm) r.0.a r.1 q)
      (lock mm s) _ (lock-a mm s)
      λ s' e.
        subst (λ a. IsValue (is_write mm + is_write sm) a holding q) (sym e)
          (main_goes (is_write mm + is_write sm) s.a waiting holding q refl (λ P. tt) h)
main-IsValue mm sm s holding q k h = record {
  most = h.most;
  before_main = h.before_main;
  before_son = h.before_son;
  seen_main = (h.before_main refl, h.most);
  seen_son = h.seen_son;
  exact = h.exact;
  same_main = λ w. refl;
  same_son = h.same_son;
}
main-IsValue mm sm s (loaded v) q k h = record {
  most = omega (arith, h.seen_main);
  before_main = λ e. absurd (omega (arith, e));
  before_son = λ e. omega (arith, h.seen_main);
  seen_main = tt;
  seen_son = h.seen_son;
  exact = λ w. omega (arith, h.exact w, h.same_main w, h.seen_main);
  same_main = λ w. tt;
  same_son = λ w. unseen q (λ u. u ≡ lower v) (omega (arith, k.alone w));
}
main-IsValue mm sm s stored q k h =
    main_goes (is_write mm + is_write sm) s.a stored (noted s.a) q refl (λ P. tt) h
main-IsValue mm sm s (noted v) q k h =
    main_goes (is_write mm + is_write sm) s.a (noted v) shown q refl (λ P. tt) h
main-IsValue mm sm s shown q k h =
    subst (λ a. IsValue (is_write mm + is_write sm) a ended q) (sym (unlock-a mm s))
      (main_goes (is_write mm + is_write sm) s.a shown ended q refl (λ P. tt) h)
main-IsValue mm sm s ended q k h = tt

pub son-IsValue :
    (mm sm : Mode) (s : Shared) (p q : Place)
    → IsLocked mm sm s p q
    → IsValue (is_write mm + is_write sm) s.a p q
    → IfReturns (λ r. IsValue (is_write mm + is_write sm) r.0.a p r.1) (thread sm raise s q)
unfolding thread
son-IsValue mm sm s p waiting k h =
    IfReturns-bind (λ s'. s'.a ≡ s.a) (λ r. IsValue (is_write mm + is_write sm) r.0.a p r.1)
      (lock sm s) _ (lock-a sm s)
      λ s' e.
        subst (λ a. IsValue (is_write mm + is_write sm) a p holding) (sym e)
          (son_goes (is_write mm + is_write sm) s.a p waiting holding refl (λ P. tt) h)
son-IsValue mm sm s p holding k h = record {
  most = h.most;
  before_main = h.before_main;
  before_son = h.before_son;
  seen_main = h.seen_main;
  seen_son = h.before_son refl;
  exact = h.exact;
  same_main = h.same_main;
  same_son = λ w. refl;
}
son-IsValue mm sm s p (loaded v) k h = record {
  most = omega (arith, h.seen_son);
  before_main = λ e. omega arith;
  before_son = λ e. absurd (omega (arith, e));
  seen_main = h.seen_main;
  seen_son = tt;
  exact = λ w. omega (arith, h.exact w, h.same_son w);
  same_main = λ w. unseen p (λ u. u ≡ raise v) (omega (arith, k.alone w));
  same_son = λ w. tt;
}
son-IsValue mm sm s p stored k h =
    son_goes (is_write mm + is_write sm) s.a p stored (noted s.a) refl (λ P. tt) h
son-IsValue mm sm s p (noted v) k h =
    son_goes (is_write mm + is_write sm) s.a p (noted v) shown refl (λ P. tt) h
son-IsValue mm sm s p shown k h =
    subst (λ a. IsValue (is_write mm + is_write sm) a p ended) (sym (unlock-a sm s))
      (son_goes (is_write mm + is_write sm) s.a p shown ended refl (λ P. tt) h)
son-IsValue mm sm s p ended k h = tt
