-- ===== src/Base/Fallible.antt =====
-- Fallible code: `none` is a fault (a read or write through a bad address) or an exhausted fuel.
use mathlib.Core.Path.{◌≡◌, refl, subst}
use mathlib.Core.Option.{Option, none, some}

infixl 5 ◌>>=◌
abbrev pub ◌>>=◌ {ℓ κ} : {A : Type ℓ} {B : Type κ} → Option A → (A → Option B) → Option B
none >>= f = none
some a >>= f = f a

-- Total correctness: there is a result, and it satisfies `P`.
abbrev pub Returns {ℓ} : {A : Type ℓ} → (A → Type 0) → Option A → Type 0
Returns P none = ⊥
Returns P (some a) = P a

-- Partial correctness: what there is of a result satisfies `P`.
abbrev pub IfReturns {ℓ} : {A : Type ℓ} → (A → Type 0) → Option A → Type 0
IfReturns P none = Unit
IfReturns P (some a) = P a

module _ {ℓ} {A : Type ℓ} where
  pub IfReturns-bind {κ} :
      {B : Type κ} (P : A → Type 0) (Q : B → Type 0) (o : Option A) (f : A → Option B)
      → IfReturns P o
      → ((a : A) → P a → IfReturns Q (f a))
      → IfReturns Q (o >>= f)
  IfReturns-bind P Q none f h next = tt
  IfReturns-bind P Q (some a) f h next = next a h

  pub IfReturns-both :
      (P Q : A → Type 0) (o : Option A)
      → IfReturns P o
      → IfReturns Q o
      → IfReturns (λ a. P a × Q a) o
  IfReturns-both P Q none h k = tt
  IfReturns-both P Q (some a) h k = (h, k)

  pub IfReturns-any : (o : Option A) → IfReturns (λ a. Unit) o
  IfReturns-any none = tt
  IfReturns-any (some a) = tt

  pub Returns-both :
      (P Q : A → Type 0) (o : Option A) → Returns P o → IfReturns Q o → Returns (λ a. P a × Q a) o
  Returns-both P Q none h k = h
  Returns-both P Q (some a) h k = (h, k)

  pub IfReturns-of : (P : A → Type 0) (o : Option A) → Returns P o → IfReturns P o
  IfReturns-of P none h = tt
  IfReturns-of P (some a) h = h

  pub IfReturns-some : (P : A → Type 0) (o : Option A) (a : A) → IfReturns P o → o ≡ some a → P a
  IfReturns-some P o a h e = subst (λ r. IfReturns P r) e h

  pub Returns-mono :
      (P Q : A → Type 0) (o : Option A) → ((a : A) → P a → Q a) → Returns P o → Returns Q o
  Returns-mono P Q none weaken h = h
  Returns-mono P Q (some a) weaken h = weaken a h

  -- The same, the other way round: what the weakening is from is read off the proof.
  pub Returns-then :
      (P Q : A → Type 0) (o : Option A) → Returns P o → ((a : A) → P a → Q a) → Returns Q o
  Returns-then P Q o h weaken = Returns-mono P Q o weaken h

  pub Returns-bind {κ} :
      {B : Type κ} (P : A → Type 0) (Q : B → Type 0) (o : Option A) (f : A → Option B)
      → Returns P o
      → ((a : A) → P a → Returns Q (f a))
      → Returns Q (o >>= f)
  Returns-bind P Q none f h next = absurd h
  Returns-bind P Q (some a) f h next = next a h

  pub Returns-result : (P : A → Type 0) (o : Option A) → Returns P o → (a : A) × (o ≡ some a) × P a
  Returns-result P none h = absurd h
  Returns-result P (some a) h = (a, refl, h)
