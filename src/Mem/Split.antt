-- ===== src/Mem/Split.antt =====
-- Lists of nodes in two parts, and changes of a heap that spare some of its nodes.
use my_linux_demo.Base.{◌≡◌, true, false, none, List, [], ◌∷◌, ◌++◌, arith, ◌==◌}
use my_linux_demo.Mem.{Ptr, null, Mem}
use my_linux_demo.Mem.Links.{
  first, last, has, has-append, Distinct, Links, Links-frame, Links-append, Links-split,
}

module _ {A : Type 0} where
  -- The heap differs at most at the nodes of `xs`.
  abbrev pub SameOutside : List (Ptr × A) → Mem A → Mem A → Type 0
  SameOutside xs m g = (a : Ptr) → has a xs ≡ false → g a ≡ m a

  -- The nodes of `xs` are no longer allocated.
  abbrev pub Freed : List (Ptr × A) → Mem A → Type 0
  Freed xs m = (a : Ptr) → has a xs ≡ true → m a ≡ none

  pub SameOutside-append :
      (us ys : List (Ptr × A)) (m g : Mem A) → SameOutside ys m g → SameOutside (us ++ ys) m g
  SameOutside-append us ys m g same p o = same p (ground (arith, has-append p us ys))

  -- No node of `xs` is one of `ys`.
  abbrev pub Apart : List (Ptr × A) → List (Ptr × A) → Type 0
  Apart xs ys = (p : Ptr) → has p xs ≡ true → has p ys ≡ false

  pub Distinct-split :
      (xs ys : List (Ptr × A)) → Distinct (xs ++ ys) → Distinct xs × Distinct ys × Apart xs ys
  Distinct-split [] ys d = (tt, d, λ p h. ground arith)
  Distinct-split ((a, x) ∷ xs) ys d =
      let (k, l, ap') = Distinct-split xs ys d.1 in
      ((ground (arith, has-append a xs ys), k), l, λ p h. ground (arith, has-append a xs ys, ap' p))

  pub Distinct-append :
      (xs ys : List (Ptr × A)) → Distinct xs → Distinct ys → Apart xs ys → Distinct (xs ++ ys)
  Distinct-append [] ys d e out = e
  Distinct-append ((a, x) ∷ xs) ys d e out = (
    ground (arith, has-append a xs ys, out a),
    Distinct-append xs ys d.1 e λ p h. out p (ground arith),
  )

  pub Apart-sub :
      (us : List (Ptr × A)) (b : Ptr) (x : A) (ys ys' : List (Ptr × A))
      → Apart us ((b, x) ∷ ys)
      → ((p : Ptr) → has p ys' ≡ true → has p ys ≡ true)
      → Apart us ((b, x) ∷ ys')
  Apart-sub us b x ys ys' out sub p i = ground (arith, out p i, sub p)

  -- Every list is empty, or has a last element.
  pub rear_elim :
      (P : List (Ptr × A) → Type 0)
      → P []
      → ((vs : List (Ptr × A)) (b : Ptr) (w : A) → P (vs ++ (b, w) ∷ []))
      → (us : List (Ptr × A)) → P us
  rear_elim P none_left snoc [] = none_left
  rear_elim P none_left snoc ((a, x) ∷ us) =
      rear_elim (λ vs. P ((a, x) ∷ vs)) (snoc [] a x) (λ vs. snoc ((a, x) ∷ vs)) us

  -- A node behind another one is not the first.
  pub not_first :
      (us : List (Ptr × A)) (b a : Ptr) (w : A) (ys : List (Ptr × A))
      → Distinct (us ++ (b, w) ∷ ys)
      → has a ys ≡ true
      → (a == first (us ++ (b, w) ∷ ys) null) ≡ false
  not_first [] b a w ys d h = ground arith
  not_first ((u, x) ∷ us) b a w ys d h = ground (arith, has-append u us ((b, w) ∷ ys))

  -- Changing the rear part of a list leaves its front part as it is, if both rear parts start
  -- with the same node.
  pub Links-rear :
      (m g : Mem A) (us : List (Ptr × A)) (b : Ptr) (x : A) (ys ys' : List (Ptr × A))
      → Links m null (us ++ (b, x) ∷ ys) null
      → Distinct (us ++ (b, x) ∷ ys)
      → Links g (last us null) ((b, x) ∷ ys') null
      → SameOutside ((b, x) ∷ ys) m g
      → Links g null (us ++ (b, x) ∷ ys') null
  Links-rear m g us b x ys ys' l d k same =
      let (_, _, out) = Distinct-split us ((b, x) ∷ ys) d in
      let (front, _) = Links-split m null null us ((b, x) ∷ ys) l in
      Links-append g null null us ((b, x) ∷ ys')
        (Links-frame m g null b us front λ p i. same p (out p i)) k

  pub Distinct-rear :
      (us : List (Ptr × A)) (b : Ptr) (x : A) (ys ys' : List (Ptr × A))
      → Distinct (us ++ (b, x) ∷ ys)
      → ((p : Ptr) → has p ys' ≡ true → has p ys ≡ true)
      → Distinct ((b, x) ∷ ys')
      → Distinct (us ++ (b, x) ∷ ys')
  Distinct-rear us b x ys ys' d sub e =
      let (k, _, out) = Distinct-split us ((b, x) ∷ ys) d in
      Distinct-append us ((b, x) ∷ ys') k e (Apart-sub us b x ys ys' out sub)
