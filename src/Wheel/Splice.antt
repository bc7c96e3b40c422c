-- ===== src/Wheel/Splice.antt =====
-- Taking one node out of a slot.
use my_linux_demo.Base.{◌≡◌, none, some, [], ◌∷◌, ◌++◌, arith, Returns}
use my_linux_demo.Mem.{Ptr, null, Mem, node, update}
use my_linux_demo.Mem.Links.{first, last, Distinct, Links, Links-frame, Links-split}
use my_linux_demo.Mem.Split.{SameOutside, SameOutside-append, Distinct-split, Links-rear}
use my_linux_demo.Wheel.{TwTimer, splice}
use my_linux_demo.Wheel.Spec.{Cells}

-- What `splice` promises for the node `a` between `b` and `bs`.
abbrev pub Spliced :
    Mem TwTimer → (vs : Cells) → (b a : Ptr) → (w t : TwTimer) → Cells → Mem TwTimer → Type 0
Spliced m vs b a w t bs g =
    Links g null (vs ++ (b, w) ∷ bs) null
    × SameOutside (vs ++ (b, w) ∷ (a, t) ∷ bs) m g
    × (g a ≡ none)

module _ (m : Mem TwTimer) (vs : Cells) (b a : Ptr) (w t : TwTimer) where
  splice-end :
      Links m null (vs ++ (b, w) ∷ (a, t) ∷ []) null
      → Distinct (vs ++ (b, w) ∷ (a, t) ∷ [])
      → Returns (λ g. Spliced m vs b a w t [] g) (splice m a)
  splice-end l d =
      let (_, k) = Links-split m null null vs ((b, w) ∷ (a, t) ∷ []) l in
      let (_, e, _) = Distinct-split vs ((b, w) ∷ (a, t) ∷ []) d in
      let g = update (update m b (some (node w (last vs null) null))) a none in
      let run : splice m a ≡ some g = unfold splice in ground arith in
      let same : SameOutside ((b, w) ∷ (a, t) ∷ []) m g = λ p o. ground arith in
      rw run (
        Links-rear m g vs b w ((a, t) ∷ []) [] l d (k.0, ground arith, tt) same,
        SameOutside-append vs _ m g same,
        ground arith,
      )

  splice-inner :
      (c : Ptr) (x : TwTimer) (zs : Cells)
      → Links m null (vs ++ (b, w) ∷ (a, t) ∷ (c, x) ∷ zs) null
      → Distinct (vs ++ (b, w) ∷ (a, t) ∷ (c, x) ∷ zs)
      → Returns (λ g. Spliced m vs b a w t ((c, x) ∷ zs) g) (splice m a)
  splice-inner c x zs l d =
      let (_, k) = Links-split m null null vs ((b, w) ∷ (a, t) ∷ (c, x) ∷ zs) l in
      let (_, e, _) = Distinct-split vs ((b, w) ∷ (a, t) ∷ (c, x) ∷ zs) d in
      let g =
        update
          (update (update m b (some (node w (last vs null) c))) c (some (node x b (first zs null))))
          a none in
      let run : splice m a ≡ some g = unfold splice in ground arith in
      let same : SameOutside ((b, w) ∷ (a, t) ∷ (c, x) ∷ zs) m g = λ p o. ground arith in
      let rest = Links-frame m g c null zs k.2.2.2 λ p i. ground arith in
      rw run (
        Links-rear m g vs b w ((a, t) ∷ (c, x) ∷ zs) ((c, x) ∷ zs) l d (ground arith) same,
        SameOutside-append vs _ m g same,
        ground arith,
      )

  pub splice-Spliced :
      (bs : Cells)
      → Links m null (vs ++ (b, w) ∷ (a, t) ∷ bs) null
      → Distinct (vs ++ (b, w) ∷ (a, t) ∷ bs)
      → Returns (λ g. Spliced m vs b a w t bs g) (splice m a)
  splice-Spliced [] l d = splice-end l d
  splice-Spliced ((c, x) ∷ zs) l d = splice-inner c x zs l d
