-- ===== src/RwLock/Invariant.antt =====
-- The lock: who holds it, and who holds it alone.
use my_linux_demo.Base.{
  ℕ, ◌+◌, ◌≤◌, ◌≡◌, refl, Bool, false, ◌||◌, inl, inr, ltb, if◌then◌else◌, arith, IfReturns,
  IfReturns-bind, Bool-cases,
}
use my_linux_demo.RwLock.{
  Mode, read, write, Shared, Place, waiting, holding, loaded, stored, noted, shown, ended, lock,
  unlock, thread, init,
}

-- 1 for a thread that holds the lock.
abbrev pub inside : Place → ℕ
inside waiting = 0
inside holding = 1
inside (loaded v) = 1
inside stored = 1
inside (noted v) = 1
inside shown = 1
inside ended = 0

abbrev pub is_write : Mode → ℕ
is_write read = 0
is_write write = 1

-- How often a thread that is `i` times inside holds the lock for reading, and for writing.
abbrev pub reads : Mode → (i : ℕ) → ℕ
reads read i = i
reads write i = 0

abbrev pub writes : Mode → (i : ℕ) → ℕ
writes read i = 0
writes write i = i

abbrev pub bit : Bool → ℕ
bit b = if b then 1 else 0

-- The lock counts those that hold it: a thread at `p` and another one at `q`.
pub record IsLocked (m n : Mode) (s : Shared) (p q : Place) : Type 0 where
  pub readers_are : s.readers ≡ reads m (inside p) + reads n (inside q)
  pub writer_is : bit s.writer ≡ writes m (inside p) + writes n (inside q)
  pub alone : 1 ≤ is_write m + is_write n → inside p + inside q ≤ 1

-- The same, seen from the other thread.
pub IsLocked-swap :
    (m n : Mode) (s : Shared) (p q : Place) → IsLocked m n s p q → IsLocked n m s q p
IsLocked-swap m n s p q h = record {
  readers_are = omega (arith, h.readers_are);
  writer_is = omega (arith, h.writer_is);
  alone = λ w. omega (arith, h.alone (omega (arith, w)));
}

abbrev pub AfterStep : (m n : Mode) (q : Place) → Shared × Place → Type 0
AfterStep m n q (s, p) = IsLocked m n s p q

shared_alone :
    (n : Mode) (s : Shared) (q : Place)
    → IsLocked read n s waiting q
    → s.writer ≡ false
    → 1 ≤ is_write read + is_write n
    → inside holding + inside q ≤ 1
shared_alone read s q h free w = absurd (omega arith)
shared_alone write s q h free w = ground (arith, free, h.writer_is)

own_alone :
    (n : Mode) (s : Shared) (q : Place)
    → IsLocked write n s waiting q
    → s.writer || ltb 0 s.readers ≡ false
    → inside holding + inside q ≤ 1
own_alone read s q h free = ground (arith, free, h.readers_are)
own_alone write s q h free = ground (arith, free, h.writer_is)

lock-IsLocked :
    (m n : Mode) (s : Shared) (q : Place)
    → IsLocked m n s waiting q
    → IfReturns (λ s'. IsLocked m n s' holding q) (lock m s)
unfolding lock
lock-IsLocked read n s q h = elim (Bool-cases s.writer) [
  | inl taken ↦ simp taken tt
  | inr free ↦ simp free (record {
    readers_are = omega (arith, h.readers_are);
    writer_is = ground (arith, free, h.writer_is);
    alone = λ w. shared_alone n s q h free w;
  })
]
lock-IsLocked write n s q h = elim (Bool-cases (s.writer || ltb 0 s.readers)) [
  | inl taken ↦ simp taken tt
  | inr free ↦ simp free (record {
    readers_are = h.readers_are;
    writer_is = ground (arith, free, h.writer_is);
    alone = λ w. own_alone n s q h free;
  })
]

pub at_most_one : (q : Place) → inside q ≤ 1
at_most_one waiting = omega arith
at_most_one holding = omega arith
at_most_one (loaded v) = omega arith
at_most_one stored = omega arith
at_most_one (noted v) = omega arith
at_most_one shown = omega arith
at_most_one ended = omega arith

unlock-IsLocked :
    (m n : Mode) (s : Shared) (q : Place)
    → IsLocked m n s shown q
    → IsLocked m n (unlock m s) ended q
unfolding unlock
unlock-IsLocked read n s q h = record {
  readers_are = omega (arith, h.readers_are);
  writer_is = h.writer_is;
  alone = λ w. omega (arith, at_most_one q);
}
unlock-IsLocked write n s q h = record {
  readers_are = h.readers_are;
  writer_is = ground (arith, h.writer_is, h.alone);
  alone = λ w. omega (arith, at_most_one q);
}

pub thread-IsLocked :
    (m n : Mode) (change : ℕ → ℕ) (s : Shared) (p q : Place)
    → IsLocked m n s p q
    → IfReturns (AfterStep m n q) (thread m change s p)
unfolding thread
thread-IsLocked m n change s waiting q h =
    IfReturns-bind (λ s'. IsLocked m n s' holding q) (AfterStep m n q) (lock m s) _
      (lock-IsLocked m n s q h) λ s' k. k
thread-IsLocked m n change s holding q h = record {
  readers_are = h.readers_are;
  writer_is = h.writer_is;
  alone = h.alone;
}
thread-IsLocked m n change s (loaded v) q h = record {
  readers_are = h.readers_are;
  writer_is = h.writer_is;
  alone = h.alone;
}
thread-IsLocked m n change s stored q h = record {
  readers_are = h.readers_are;
  writer_is = h.writer_is;
  alone = h.alone;
}
thread-IsLocked m n change s (noted v) q h = record {
  readers_are = h.readers_are;
  writer_is = h.writer_is;
  alone = h.alone;
}
thread-IsLocked m n change s shown q h = unlock-IsLocked m n s q h
thread-IsLocked m n change s ended q h = tt

none_held : (m : Mode) → (reads m 0 ≡ 0) × (writes m 0 ≡ 0)
none_held read = (refl, refl)
none_held write = (refl, refl)

pub init-IsLocked : (m n : Mode) → IsLocked m n init.shared init.main init.son
init-IsLocked m n = record {
  readers_are = omega (arith, (none_held m).0, (none_held n).0);
  writer_is = omega (arith, (none_held m).1, (none_held n).1);
  alone = λ w. omega arith;
}
