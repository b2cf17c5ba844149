-- ===== src/Bits/Digits.antt =====
-- The lowest binary digit of `&`, `|` and `^`, and the rest: one step of the recursion that they
-- are.
use Prim.Native.Nat.{digits, bitwise, differ, bit_and-bitwise, bit_or-bitwise, bit_xor-bitwise}
use trema.Base.{
  ℕ, zero, suc, ◌+◌, ◌-◌, ◌*◌, ◌/◌, ◌%◌, ◌≤◌, ◌≡◌, refl, arith, bit_and, bit_or, bit_xor, min, max,
}

-- Any two counts that are large enough serve.
digits_enough :
    (z : ℕ → ℕ) (f : ℕ → ℕ → ℕ) (n m a b : ℕ) → a ≤ n → a ≤ m → digits z f n a b ≡ digits z f m a b
digits_enough z f zero zero zero b u v = refl
digits_enough z f zero zero (suc a) b u v = refl
digits_enough z f zero (suc m) zero b u v = refl
digits_enough z f zero (suc m) (suc a) b u v = absurd (omega arith)
digits_enough z f (suc n) zero zero b u v = refl
digits_enough z f (suc n) zero (suc a) b u v = absurd (omega arith)
digits_enough z f (suc n) (suc m) zero b u v = refl
digits_enough z f (suc n) (suc m) (suc a) b u v =
    omega (arith, digits_enough z f n m (suc a / 2) (b / 2) (omega arith) (omega arith))

bitwise_step :
    (z : ℕ → ℕ) (f : ℕ → ℕ → ℕ) (a b : ℕ)
    → bitwise z f (suc a) b ≡ bitwise z f (suc a / 2) (b / 2) * 2 + f (suc a % 2) (b % 2)
bitwise_step z f a b =
    omega (arith, digits_enough z f a (suc a / 2) (suc a / 2) (b / 2) (omega arith) (omega arith))

pub and-digit : (a b : ℕ) → bit_and a b ≡ bit_and (a / 2) (b / 2) * 2 + min (a % 2) (b % 2)
and-digit zero b = simp bit_and-bitwise (omega arith)
and-digit (suc a) b = simp bit_and-bitwise (bitwise_step (λ y. 0) min a b)

pub or-digit : (a b : ℕ) → bit_or a b ≡ bit_or (a / 2) (b / 2) * 2 + max (a % 2) (b % 2)
or-digit zero b = simp bit_or-bitwise (omega arith)
or-digit (suc a) b = simp bit_or-bitwise (bitwise_step (λ y. y) max a b)

differ_digits : (x y : ℕ) → differ x y ≡ max x y - min x y
differ_digits zero y = omega arith
differ_digits (suc x) zero = omega arith
differ_digits (suc x) (suc y) = omega (arith, differ_digits x y)

pub xor-digit :
    (a b : ℕ)
    → bit_xor a b ≡ bit_xor (a / 2) (b / 2) * 2 + (max (a % 2) (b % 2) - min (a % 2) (b % 2))
xor-digit zero b = simp bit_xor-bitwise (omega arith)
xor-digit (suc a) b =
    simp bit_xor-bitwise
      (omega (arith, bitwise_step (λ y. y) differ a b, differ_digits (suc a % 2) (b % 2)))
