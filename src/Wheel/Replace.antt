-- ===== src/Wheel/Replace.antt =====
-- Replacing the timers of one slot keeps the wheel in order.
use mathlib.Core.Path.{subst}
use my_linux_demo.Base.{
  ℕ, ◌<◌, ◌≡◌, ◌≢◌, sym, ap, ◌∙◌, inl, inr, true, false, arith, ◌==◌, ==-eq, ==-ne, Bool-cases, All,
}
use my_linux_demo.Mem.{Ptr, null}
use my_linux_demo.Mem.Links.{first, has, Distinct, Links, Links-frame}
use my_linux_demo.Wheel.{TimeWheel, slots}
use my_linux_demo.Wheel.Spec.{Cells, IsWheel, put_at}

-- What the slot `k` holds in `w'`; the other slots hold what they held in `w`.
pub record Replaces (w w' : TimeWheel) (xs : ℕ → Cells) (k : ℕ) (ys : Cells) : Type 0 where
  pub cur_lt : w'.cur_slot < slots
  pub slot_lt : k < slots
  pub links : Links w'.mem null ys null
  pub distinct : Distinct ys
  pub slot_is : w'.slot k ≡ first ys null
  pub marked : All (λ c. c.1.time_slot ≡ k) ys
  pub slot_same : (j : ℕ) → (j == k) ≡ false → w'.slot j ≡ w.slot j
  pub same : (j : ℕ) (p : Ptr) → j < slots → j ≢ k → has p (xs j) ≡ true → w'.mem p ≡ w.mem p
  pub off : (j : ℕ) (p : Ptr) → j < slots → j ≢ k → has p (xs j) ≡ true → has p ys ≡ false

module _ (w w' : TimeWheel) (xs : ℕ → Cells) (k : ℕ) (ys : Cells) (is : IsWheel w xs)
    (h : Replaces w w' xs k ys) where
  abbrev after : ℕ → Cells
  after = put_at xs k ys

  after-Links : (i : ℕ) → i < slots → Links w'.mem null (after i) null
  after-Links i r = elim (Bool-cases (i == k)) [
    | inl e ↦ rw e h.links
    | inr ne ↦ rw ne (
        Links-frame w.mem w'.mem null null (xs i) (is.links i r)
          λ p o. h.same i p r (==-ne _ _ ne) o)
  ]

  after-Distinct : (i : ℕ) → i < slots → Distinct (after i)
  after-Distinct i r = elim (Bool-cases (i == k)) [
    | inl e ↦ rw e h.distinct
    | inr ne ↦ rw ne (is.distinct i r)
  ]

  after_slot_is : (i : ℕ) → i < slots → w'.slot i ≡ first (after i) null
  after_slot_is i r = elim (Bool-cases (i == k)) [
    | inl e ↦ rw e (ap w'.slot (==-eq _ _ e) ∙ h.slot_is)
    | inr ne ↦ rw ne (h.slot_same i ne ∙ is.slot_is i r)
  ]

  after_marked : (i : ℕ) → i < slots → All (λ c. c.1.time_slot ≡ i) (after i)
  after_marked i r = elim (Bool-cases (i == k)) [
    | inl e ↦ rw e (subst (λ j. All (λ c. c.1.time_slot ≡ j) ys) (sym (==-eq _ _ e)) h.marked)
    | inr ne ↦ rw ne (is.marked i r)
  ]

  after_apart :
      (i j : ℕ) (p : Ptr)
      → i < slots
      → j < slots
      → i ≢ j
      → has p (after i) ≡ true
      → has p (after j) ≡ false
  after_apart i j p r q ne o = elim (Bool-cases (i == k)) [
    | inl e ↦ elim (Bool-cases (j == k)) [
      | inl f ↦ absurd (ne (==-eq _ _ e ∙ sym (==-eq _ _ f)))
      | inr nf ↦ rw nf (ground (arith, h.off j p q (==-ne _ _ nf)))
    ]
    | inr ni ↦ elim (Bool-cases (j == k)) [
      | inl f ↦ rw f (h.off i p r (==-ne _ _ ni) (rw ni at o))
      | inr nf ↦ rw nf (is.apart i j p r q ne (rw ni at o))
    ]
  ]

  pub replace-IsWheel : IsWheel w' after
  replace-IsWheel = record {
    cur_lt = h.cur_lt;
    links = after-Links;
    distinct = after-Distinct;
    slot_is = after_slot_is;
    marked = after_marked;
    apart = after_apart;
  }
