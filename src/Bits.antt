-- ===== src/Bits.antt =====
-- Laws of the native `&`, `|` and `^` at variables, by induction on a bound of the numbers.
pub mod Digits
pub mod Masks
use trema.Base.{
  ℕ, zero, suc, ◌+◌, ◌-◌, ◌*◌, ◌/◌, ◌%◌, ◌^◌, ◌≤◌, ◌<◌, ◌≡◌, ◌↔◌, ◌∙◌, refl, sym, ap, arith,
  bit_and, bit_or, bit_xor, min, max,
}
use Digits.{and-digit, or-digit, xor-digit}

and_zero_within : (n a : ℕ) → a ≤ n → bit_and a 0 ≡ 0
and_zero_within zero zero h = refl
and_zero_within zero (suc a) h = absurd (omega arith)
and_zero_within (suc n) a h = omega (arith, and-digit a 0, and_zero_within n (a / 2) (omega arith))

pub and-zero : (a : ℕ) → bit_and a 0 ≡ 0
and-zero a = and_zero_within a a (omega arith)

-- The rest of a number behind its lowest digit.
or_half : (a b : ℕ) → bit_or a b / 2 ≡ bit_or (a / 2) (b / 2)
or_half a b = omega (arith, or-digit a b)

xor_half : (a b : ℕ) → bit_xor a b / 2 ≡ bit_xor (a / 2) (b / 2)
xor_half a b = omega (arith, xor-digit a b)

and_half : (a b : ℕ) → bit_and a b / 2 ≡ bit_and (a / 2) (b / 2)
and_half a b = omega (arith, and-digit a b)

-- Two masks one after the other are the mask of their common bits.
and_assoc_within : (n a b m : ℕ) → m ≤ n → bit_and (bit_and a b) m ≡ bit_and a (bit_and b m)
and_assoc_within zero a b zero h =
    and-zero (bit_and a b) ∙ sym (ap (bit_and a) (and-zero b) ∙ and-zero a)
and_assoc_within zero a b (suc m) h = absurd (omega arith)
and_assoc_within (suc n) a b m h = omega (
  arith,
  and-digit (bit_and a b) m,
  and-digit a (bit_and b m),
  and-digit a b,
  and-digit b m,
  ap (λ x. bit_and x (m / 2)) (and_half a b),
  ap (bit_and (a / 2)) (and_half b m),
  and_assoc_within n (a / 2) (b / 2) (m / 2) (omega arith),
)

pub and_assoc : (a b m : ℕ) → bit_and (bit_and a b) m ≡ bit_and a (bit_and b m)
and_assoc a b m = and_assoc_within m a b m (omega arith)

-- A masked `|` is 0 when both masked numbers are, and only then.
or_masked_within :
    (n a b m : ℕ) → m ≤ n → (bit_and (bit_or a b) m ≡ 0) ↔ ((bit_and a m ≡ 0) × (bit_and b m ≡ 0))
or_masked_within zero a b zero h = (λ p. (and-zero a, and-zero b), λ p. and-zero (bit_or a b))
or_masked_within zero a b (suc m) h = absurd (omega arith)
or_masked_within (suc n) a b m h =
    let ih = or_masked_within n (a / 2) (b / 2) (m / 2) (omega arith) in
    let half = ap (λ x. bit_and x (m / 2)) (or_half a b) in
    (
      λ p.
          let q : bit_and (bit_or (a / 2) (b / 2)) (m / 2) ≡ 0 =
            omega (arith, and-digit (bit_or a b) m, half) in
          let (u, v) = ih.0 q in
          (
            omega (arith, and-digit (bit_or a b) m, and-digit a m, or-digit a b, u),
            omega (arith, and-digit (bit_or a b) m, and-digit b m, or-digit a b, v),
          ),
      λ (p, q).
          let u : bit_and (a / 2) (m / 2) ≡ 0 = omega (arith, and-digit a m) in
          let v : bit_and (b / 2) (m / 2) ≡ 0 = omega (arith, and-digit b m) in
          omega (
            arith,
            and-digit (bit_or a b) m,
            and-digit a m,
            and-digit b m,
            or-digit a b,
            half,
            ih.1 (u, v),
          ),
    )

pub or_masked : (a b m : ℕ) → (bit_and (bit_or a b) m ≡ 0) ↔ ((bit_and a m ≡ 0) × (bit_and b m ≡ 0))
or_masked a b m = or_masked_within m a b m (omega arith)

-- A masked `^` is 0 exactly when the masked numbers are equal.
xor_masked_within :
    (n a b m : ℕ) → m ≤ n → (bit_and (bit_xor a b) m ≡ 0) ↔ (bit_and a m ≡ bit_and b m)
xor_masked_within zero a b zero h =
    (λ p. and-zero a ∙ sym (and-zero b), λ p. and-zero (bit_xor a b))
xor_masked_within zero a b (suc m) h = absurd (omega arith)
xor_masked_within (suc n) a b m h =
    let ih = xor_masked_within n (a / 2) (b / 2) (m / 2) (omega arith) in
    let half = ap (λ x. bit_and x (m / 2)) (xor_half a b) in
    (
      λ p.
          let q : bit_and (bit_xor (a / 2) (b / 2)) (m / 2) ≡ 0 =
            omega (arith, and-digit (bit_xor a b) m, half) in
          omega
            (arith, and-digit (bit_xor a b) m, and-digit a m, and-digit b m, xor-digit a b, ih.0 q),
      λ p.
          let q : bit_and (a / 2) (m / 2) ≡ bit_and (b / 2) (m / 2) =
            omega (arith, and-digit a m, and-digit b m) in
          omega (
            arith,
            and-digit (bit_xor a b) m,
            and-digit a m,
            and-digit b m,
            xor-digit a b,
            half,
            ih.1 q,
          ),
    )

pub xor_masked : (a b m : ℕ) → (bit_and (bit_xor a b) m ≡ 0) ↔ (bit_and a m ≡ bit_and b m)
xor_masked a b m = xor_masked_within m a b m (omega arith)

-- Numbers that agree under a mask agree under each mask of some of its bits.
pub and_submask :
    (a b mask m : ℕ)
    → bit_and mask m ≡ m
    → bit_and a mask ≡ bit_and b mask
    → bit_and a m ≡ bit_and b m
and_submask a b mask m sub same =
    let part : (x : ℕ) → bit_and x m ≡ bit_and (bit_and x mask) m =
      λ x. sym (and_assoc x mask m ∙ ap (bit_and x) sub) in
    part a ∙ ap (λ x. bit_and x m) same ∙ sym (part b)

pub half_ones : (n : ℕ) → (2 ^ suc n - 1) / 2 ≡ 2 ^ n - 1
half_ones n = omega arith

-- A mask of `n` low ones keeps a number of `n` bits.
pub and_ones : (n a : ℕ) → a < 2 ^ n → bit_and a (2 ^ n - 1) ≡ a
and_ones zero a h = and-zero a ∙ omega arith
and_ones (suc n) a h = omega (
  arith,
  and-digit a (2 ^ suc n - 1),
  and_ones n (a / 2) (omega arith),
  half_ones n,
  ap (bit_and (a / 2)) (half_ones n),
)
