-- ===== src/TimerList/Destroy.antt =====
-- The destructor.
use mathlib.Core.Path.{subst}
use my_linux_demo.Base.{
  ℕ, zero, suc, ◌<◌, ◌≡◌, refl, sym, true, false, none, some, [], ◌∷◌, arith, ◌==◌, Returns,
  Returns-then, length,
}
use my_linux_demo.Mem.{Ptr, null, Mem, node, update}
use my_linux_demo.Mem.Links.{first, Distinct, Links, Links-frame}
use my_linux_demo.Mem.Split.{SameOutside, Freed}
use my_linux_demo.TimerList.{Timer, TimeList, destroy}
use my_linux_demo.TimerList.Spec.{Cells, IsList}

abbrev pub Destroyed : Mem Timer → Cells → TimeList → Type 0
Destroyed m xs s' = (s'.head ≡ null) × SameOutside xs m s'.mem × Freed xs s'.mem

-- The nodes from `before` on: the destructor does not look at `prev`.
destroy-from :
    (fuel : ℕ) (s : TimeList) (before : Ptr) (xs : Cells)
    → Links s.mem before xs null
    → Distinct xs
    → s.head ≡ first xs null
    → length xs < fuel
    → Returns (λ s'. Destroyed s.mem xs s') (destroy fuel s)
unfolding destroy
destroy-from zero s before xs l d h f = absurd (omega arith)
destroy-from (suc fuel) s before [] l d h f =
    let nh : (s.head == null) ≡ true = ground arith in rw nh (h, λ p o. refl, λ p i. cc)
destroy-from (suc fuel) s before ((a, t) ∷ xs) l d h f =
    let nh : (s.head == null) ≡ false = ground arith in
    let at_head : s.mem s.head ≡ some (node t before (first xs null)) =
      subst (λ p. s.mem p ≡ some (node t before (first xs null))) (sym h) l.1 in
    let g = update s.mem s.head none in
    let rest : Links g a xs null = Links-frame s.mem g a null xs l.2 λ p i. ground arith in
    rw (nh, at_head)
      (Returns-then _ (λ s'. Destroyed s.mem ((a, t) ∷ xs) s') _
        (destroy-from fuel (record { mem = g; head = first xs null; tail = s.tail }) a xs rest d.1
          refl (omega arith))
        λ s' r. (r.0, (λ p o. ground (arith, r.1 p)), (λ p i. ground (arith, r.1 p, r.2 p))))

-- The destructor, with more fuel than timers, deletes every node of a well-linked list and no
-- other.
pub destroy-Freed :
    (fuel : ℕ) (s : TimeList) (xs : Cells)
    → IsList s xs
    → length xs < fuel
    → Returns (λ s'. Destroyed s.mem xs s') (destroy fuel s)
destroy-Freed fuel s xs is f = destroy-from fuel s null xs is.links is.distinct is.head_is f
