-- ===== src/SelectServer/Room.antt =====
-- The table of clients has room: a descriptor below its length that it does not hold leaves an
-- entry free.
use my_linux_demo.Base.{
  ℕ, zero, suc, ◌+◌, ◌<◌, ◌≤◌, ◌≡◌, refl, inl, inr, Bool, true, false, Option, none, some, List, [],
  ◌∷◌, ◌==◌, arith, ltb, if◌then◌else◌, length, Bool-cases,
}
use my_linux_demo.SelectServer.{place, vacate}

abbrev pub has_free : List (Option ℕ) → Bool
has_free [] = false
has_free (none ∷ xs) = true
has_free (some fd ∷ xs) = has_free xs

-- How often the table holds `c`, and how many entries hold a number below `n`.
abbrev pub occurs : (c : ℕ) → List (Option ℕ) → ℕ
occurs c [] = 0
occurs c (none ∷ xs) = occurs c xs
occurs c (some fd ∷ xs) = (if fd == c then 1 else 0) + occurs c xs

abbrev below : (n : ℕ) → List (Option ℕ) → ℕ
below n [] = 0
below n (none ∷ xs) = below n xs
below n (some fd ∷ xs) = (if ltb fd n then 1 else 0) + below n xs

abbrev pub AreBelow : (n : ℕ) → List (Option ℕ) → Type 0
AreBelow n [] = Unit
AreBelow n (none ∷ xs) = AreBelow n xs
AreBelow n (some fd ∷ xs) = (fd < n) × AreBelow n xs

below-zero : (xs : List (Option ℕ)) → below 0 xs ≡ 0
below-zero [] = refl
below-zero (none ∷ xs) = below-zero xs
below-zero (some fd ∷ xs) = ground (arith, below-zero xs)

below-suc : (n : ℕ) (xs : List (Option ℕ)) → below (suc n) xs ≡ below n xs + occurs n xs
below-suc n [] = refl
below-suc n (none ∷ xs) = below-suc n xs
below-suc n (some fd ∷ xs) = ground (arith, below-suc n xs)

below-le : (n : ℕ) (xs : List (Option ℕ)) → ((c : ℕ) → occurs c xs ≤ 1) → below n xs ≤ n
below-le zero xs once = omega (arith, below-zero xs)
below-le (suc n) xs once = omega (arith, below-suc n xs, below-le n xs once, once n)

below-lt :
    (n c : ℕ) (xs : List (Option ℕ))
    → ((d : ℕ) → occurs d xs ≤ 1)
    → c < n
    → occurs c xs ≡ 0
    → below n xs < n
below-lt zero c xs once l new = absurd (omega arith)
below-lt (suc n) c xs once l new = elim (Bool-cases (c == n)) [
  | inl same ↦
      let absent : occurs n xs ≡ 0 = grind (arith, same, new) in
      omega (arith, below-suc n xs, below-le n xs once, absent)
  | inr other ↦
      let fits : c < n = ground (arith, other, l) in
      omega (arith, below-suc n xs, below-lt n c xs once fits new, once n)
]

below-full :
    (n : ℕ) (xs : List (Option ℕ)) → AreBelow n xs → has_free xs ≡ false → below n xs ≡ length xs
below-full n [] l full = refl
below-full n (none ∷ xs) l full = cc
below-full n (some fd ∷ xs) l full = ground (arith, l.0, below-full n xs l.1 full)

pub has_free-new :
    (c : ℕ) (xs : List (Option ℕ))
    → ((d : ℕ) → occurs d xs ≤ 1)
    → AreBelow (length xs) xs
    → c < length xs
    → occurs c xs ≡ 0
    → has_free xs ≡ true
has_free-new c xs once small l new = elim (Bool-cases (has_free xs)) [
  | inl room ↦ room
  | inr full ↦
      absurd
        (omega (arith, below-full (length xs) xs small full, below-lt (length xs) c xs once l new))
]

pub occurs-place :
    (d c : ℕ) (xs : List (Option ℕ))
    → occurs d (place xs c).0 ≤ (if c == d then 1 else 0) + occurs d xs
unfolding place
occurs-place d c [] = omega arith
occurs-place d c (none ∷ xs) = omega arith
occurs-place d c (some fd ∷ xs) = omega (arith, occurs-place d c xs)

pub occurs-vacate : (d i : ℕ) (xs : List (Option ℕ)) → occurs d (vacate xs i) ≤ occurs d xs
unfolding vacate
occurs-vacate d i [] = omega arith
occurs-vacate d zero (none ∷ xs) = omega arith
occurs-vacate d zero (some fd ∷ xs) = omega arith
occurs-vacate d (suc i) (none ∷ xs) = occurs-vacate d i xs
occurs-vacate d (suc i) (some fd ∷ xs) = omega (arith, occurs-vacate d i xs)
