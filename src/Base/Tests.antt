-- ===== src/Base/Tests.antt =====
-- Boolean tests on native numbers, the conditional, and splits that keep their equation.
use Prim.Native.Nat.{ℕ, compare, Ordering}
use mathlib.Core.Path.{◌≡◌, refl}
use mathlib.Core.Logic.{◌↔◌, ◌⊎◌, inl, inr}
use mathlib.Core.Bool.{Bool, true, false}
use mathlib.Core.Option.{Option, none, some}
use native.Mathlib.Omega.{arith}

abbrev pub ltb : ℕ → ℕ → Bool
ltb a b = elim (compare a b) [ Ordering.lt ↦ true | _ ↦ false ]

abbrev pub leb : ℕ → ℕ → Bool
leb a b = elim (compare a b) [ Ordering.gt ↦ false | _ ↦ true ]

infix 50 ◌==◌
abbrev pub ◌==◌ : ℕ → ℕ → Bool
a == b = elim (compare a b) [ Ordering.eq ↦ true | _ ↦ false ]

infix 1 if◌then◌else◌
abbrev pub if◌then◌else◌ {ℓ} : {A : Type ℓ} → Bool → A → A → A
if true then x else y = x
if false then x else y = y

module _ {ℓ} {A : Type ℓ} {b : Bool} (x y : A) where
  pub if-true : b ≡ true → (if b then x else y) ≡ x
  if-true e = rw e

  pub if-false : b ≡ false → (if b then x else y) ≡ y
  if-false e = rw e

pub ==_iff : (a b : ℕ) → ((a == b) ≡ true) ↔ (a ≡ b)
==_iff a b = ground arith

pub ==_refl : (a : ℕ) → (a == a) ≡ true
==_refl a = ground arith

pub ==_symm : (a b : ℕ) → a == b ≡ b == a
==_symm a b = ground arith

pub ==_trans : (a b c : ℕ) → (a == b) ≡ true → (b == c) ≡ true → (a == c) ≡ true
==_trans a b c p q = ground arith

pub Bool-cases : (b : Bool) → (b ≡ true) ⊎ (b ≡ false)
Bool-cases true = inl refl
Bool-cases false = inr refl

module _ {ℓ} {A : Type ℓ} where
  pub Option-cases : (o : Option A) → (o ≡ none) ⊎ ((a : A) × (o ≡ some a))
  Option-cases none = inl refl
  Option-cases (some a) = inr (a, refl)

  abbrev pub is_some : Option A → Bool
  is_some none = false
  is_some (some _) = true

-- One cell of a map from numbers, and a write to it.
abbrev pub update {ℓ} : {A : Type ℓ} → (ℕ → A) → ℕ → A → ℕ → A
update f i a j = if j == i then a else f j

-- One test of a switch over a number, for a property of the result.
module _ {ℓ κ} {A : Type ℓ} (P : A → Type κ) (t n : ℕ) {x y : A} where
  pub switch_or : (t ≡ n → P x) → ((t == n) ≡ false → P y) → P (if t == n then x else y)
  switch_or f g = elim (Bool-cases (t == n)) [
    | inl e ↦ let u : P x = f (ground arith) in rw e u
    | inr e ↦ let u : P y = g e in rw e u
  ]

  pub switch : (t ≡ n → P x) → P y → P (if t == n then x else y)
  switch f g = switch_or f (λ _. g)
