-- ===== src/Mem/Links.antt =====
-- What it means for the nodes of a heap to form a doubly linked list.
use my_linux_demo.Base.{
  ◌≡◌, ◌≢◌, refl, Bool, true, false, ◌||◌, some, List, [], ◌∷◌, ◌++◌, arith, ◌==◌,
}
use my_linux_demo.Mem.{Ptr, null, Mem, node}

module _ {A : Type 0} where
  abbrev pub first : List (Ptr × A) → Ptr → Ptr
  first [] stop = stop
  first ((a, _) ∷ xs) stop = a

  abbrev pub last : List (Ptr × A) → Ptr → Ptr
  last [] before = before
  last ((a, _) ∷ xs) before = last xs a

  abbrev pub has : Ptr → List (Ptr × A) → Bool
  has p [] = false
  has p ((a, _) ∷ xs) = (p == a) || has p xs

  abbrev pub Distinct : List (Ptr × A) → Type 0
  Distinct [] = Unit
  Distinct ((a, _) ∷ xs) = (has a xs ≡ false) × Distinct xs

  -- The nodes `xs`, in order: the first one's `prev` is `before`, the last one's `next` is `stop`.
  abbrev pub Links : Mem A → Ptr → List (Ptr × A) → Ptr → Type 0
  Links m before [] stop = Unit
  Links m before ((a, x) ∷ xs) stop =
      (a ≢ null) × (m a ≡ some (node x before (first xs stop))) × Links m a xs stop

  pub has-append : (p : Ptr) (xs ys : List (Ptr × A)) → has p (xs ++ ys) ≡ (has p xs || has p ys)
  has-append p [] ys = refl
  has-append p ((a, x) ∷ xs) ys = ground (arith, has-append p xs ys)

  pub last-append : (b : Ptr) (xs ys : List (Ptr × A)) → last (xs ++ ys) b ≡ last ys (last xs b)
  last-append b [] ys = refl
  last-append b ((a, x) ∷ xs) ys = last-append a xs ys

  pub first-append :
      (stop : Ptr) (xs ys : List (Ptr × A)) → first (xs ++ ys) stop ≡ first xs (first ys stop)
  first-append stop [] ys = refl
  first-append stop ((a, x) ∷ xs) ys = refl

  -- A list survives any change that spares its own nodes.
  pub Links-frame :
      (m g : Mem A) (before stop : Ptr) (xs : List (Ptr × A))
      → Links m before xs stop
      → ((a : Ptr) → has a xs ≡ true → g a ≡ m a)
      → Links g before xs stop
  Links-frame m g before stop [] l same = tt
  Links-frame m g before stop ((a, x) ∷ xs) l same =
      (l.0, ground (arith, same a), Links-frame m g a stop xs l.2 λ b i. same b (ground arith))

  pub Links-append :
      (m : Mem A) (before stop : Ptr) (xs ys : List (Ptr × A))
      → Links m before xs (first ys stop)
      → Links m (last xs before) ys stop
      → Links m before (xs ++ ys) stop
  Links-append m before stop [] ys k l = l
  Links-append m before stop ((a, x) ∷ xs) ys k l =
      (k.0, ground (arith, first-append stop xs ys), Links-append m a stop xs ys k.2 l)

  pub Links-split :
      (m : Mem A) (before stop : Ptr) (xs ys : List (Ptr × A))
      → Links m before (xs ++ ys) stop
      → Links m before xs (first ys stop) × Links m (last xs before) ys stop
  Links-split m before stop [] ys l = (tt, l)
  Links-split m before stop ((a, x) ∷ xs) ys l =
      let (k, r) = Links-split m a stop xs ys l.2 in
      ((l.0, ground (arith, first-append stop xs ys), k), r)
