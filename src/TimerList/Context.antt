-- ===== src/TimerList/Context.antt =====
-- Changing the rear part of a list leaves its front part as it is.

use my_linux_demo.Base.{◌≡◌, sym, ◌∙◌, true, ◌↔◌, [], ◌∷◌, ◌++◌}
use my_linux_demo.Mem.{Ptr, null}
use my_linux_demo.Mem.Links.{last, has, Distinct, Links, last-append, first-append}
use my_linux_demo.Mem.Split.{SameOutside, Links-rear, Distinct-rear}
use my_linux_demo.TimerList.{Timer, TimeList}
use my_linux_demo.TimerList.Spec.{Cells, IsList, TailIs}

pub TailIs-append :
    (t : Ptr) (us : Cells) (b : Ptr) (x : Timer) (ys : Cells)
    → TailIs t (us ++ (b, x) ∷ ys) ↔ (t ≡ last ys b)
TailIs-append t [] b x ys = (λ h. h, λ h. h)
TailIs-append t ((a, w) ∷ us) b x ys =
    (λ h. h ∙ last-append a us ((b, x) ∷ ys), λ h. h ∙ sym (last-append a us ((b, x) ∷ ys)))

-- Both rear parts start with the same node.
pub IsList-rear :
    (s s' : TimeList) (us : Cells) (b : Ptr) (x : Timer) (ys ys' : Cells)
    → IsList s (us ++ (b, x) ∷ ys)
    → Links s'.mem (last us null) ((b, x) ∷ ys') null
    → SameOutside ((b, x) ∷ ys) s.mem s'.mem
    → ((p : Ptr) → has p ys' ≡ true → has p ys ≡ true)
    → Distinct ((b, x) ∷ ys')
    → s'.head ≡ s.head
    → s'.tail ≡ last ys' b
    → IsList s' (us ++ (b, x) ∷ ys')
IsList-rear s s' us b x ys ys' is l same sub d h t = record {
  links = Links-rear s.mem s'.mem us b x ys ys' is.links is.distinct l same;
  distinct = Distinct-rear us b x ys ys' is.distinct sub d;
  head_is =
      h
      ∙ is.head_is
      ∙ first-append null us ((b, x) ∷ ys)
      ∙ sym (first-append null us ((b, x) ∷ ys'));
  tail_is = (TailIs-append s'.tail us b x ys').1 t;
}
