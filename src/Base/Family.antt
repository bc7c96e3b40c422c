-- ===== src/Base/Family.antt =====
-- Families indexed by thread: a write at one index, and sums over the first `n` threads.
use Prim.Native.Nat.{ℕ, zero, suc, ◌+◌, ◌*◌, ◌≤◌, ◌<◌}
use mathlib.Core.Path.{◌≡◌, refl}
use mathlib.Core.Logic.{◌≢◌, inl, inr}
use native.Mathlib.Omega.{arith}
use my_linux_demo.Base.Tests.{◌==◌, ltb, if◌then◌else◌, Bool-cases}

abbrev pub assign {ℓ} : {A : Type ℓ} → (ℕ → A) → ℕ → A → ℕ → A
assign f i a j = if j == i then a else f j

module _ {ℓ} {A : Type ℓ} (w : A → ℕ) where
  pub total : ℕ → (ℕ → A) → ℕ
  total zero f = 0
  total (suc n) f = total n f + w (f n)

  total-assign_above :
      (n : ℕ) (f : ℕ → A) (i : ℕ) (a : A) → n ≤ i → total n (assign f i a) ≡ total n f
  unfolding total
  total-assign_above zero f i a h = refl
  total-assign_above (suc n) f i a h = ground (arith, total-assign_above n f i a)

  -- A write moves the weight of one thread.
  pub total-assign :
      (n : ℕ) (f : ℕ → A) (i : ℕ) (a : A)
      → i < n
      → total n (assign f i a) + w (f i) ≡ total n f + w a
  unfolding total
  total-assign zero f i a h = absurd (omega arith)
  total-assign (suc n) f i a h = elim (Bool-cases (ltb i n)) [
    | inl l ↦ ground (arith, total-assign n f i a)
    | inr g ↦ ground (arith, total-assign_above n f i a)
  ]

  pub le-total : (n : ℕ) (f : ℕ → A) (i : ℕ) → i < n → w (f i) ≤ total n f
  unfolding total
  le-total zero f i h = absurd (omega arith)
  le-total (suc n) f i h = elim (Bool-cases (ltb i n)) [
    | inl l ↦ ground (arith, le-total n f i)
    | inr g ↦ let e : i ≡ n = ground arith in rw e (omega arith)
  ]

  -- The weights of two threads are both counted.
  pub two-le-total :
      (n : ℕ) (f : ℕ → A) (i j : ℕ) → i < n → j < n → i ≢ j → w (f i) + w (f j) ≤ total n f
  unfolding total
  two-le-total zero f i j h k d = absurd (omega arith)
  two-le-total (suc n) f i j h k d = elim (Bool-cases (ltb i n)) [
    | inl l ↦ elim (Bool-cases (ltb j n)) [
      | inl l' ↦ ground (arith, two-le-total n f i j)
      | inr g' ↦
          let e : j ≡ n = ground arith in
          let b : w (f i) ≤ total n f = le-total n f i (ground arith) in rw e (omega (arith, b))
    ]
    | inr g ↦
        let e : i ≡ n = ground arith in
        let b : w (f j) ≤ total n f = le-total n f j (ground (arith, d)) in rw e (omega (arith, b))
  ]

  pub total-eq : (n c : ℕ) (f : ℕ → A) → ((i : ℕ) → i < n → w (f i) ≡ c) → total n f ≡ n * c
  unfolding total
  total-eq zero c f h = omega arith
  total-eq (suc n) c f h =
      grind (arith, total-eq n c f (λ i l. h i (omega arith)), h n (omega arith))

  -- A sum that is not zero has a thread with a weight.
  pub total-witness : (n : ℕ) (f : ℕ → A) → 0 < total n f → (i : ℕ) × (i < n) × (0 < w (f i))
  unfolding total
  total-witness zero f h = absurd (omega arith)
  total-witness (suc n) f h = elim (Bool-cases (ltb 0 (w (f n)))) [
    | inl l ↦ (n, omega arith, ground arith)
    | inr g ↦ let (i, l, p) = total-witness n f (ground arith) in (i, omega arith, p)
  ]
