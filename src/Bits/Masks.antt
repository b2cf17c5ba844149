-- ===== src/Bits/Masks.antt =====
-- Masks of high ones: a number that they send to 0 is small.
use trema.Base.{ℕ, zero, suc, ◌+◌, ◌-◌, ◌*◌, ◌/◌, ◌%◌, ◌^◌, ◌<◌, ◌≡◌, ◌↔◌, ap, bit_and, arith}
use trema.Bits.{and_ones}
use trema.Bits.Digits.{and-digit}

-- `n` ones above `k` zeros
abbrev pub high_mask : (k n : ℕ) → ℕ
high_mask zero n = 2 ^ n - 1
high_mask (suc k) n = high_mask k n * 2

-- the number `2 ^ ( k + n )`
abbrev pub high_bound : (k n : ℕ) → ℕ
high_bound zero n = 2 ^ n
high_bound (suc k) n = high_bound k n * 2

pub and_double : (x m : ℕ) → bit_and x (m * 2) ≡ bit_and (x / 2) m * 2
and_double x m =
    let half : m * 2 / 2 ≡ m = omega arith in
    omega (arith, and-digit x (m * 2), ap (bit_and (x / 2)) half)

pub and-high_mask : (k n x : ℕ) → x < high_bound k n → (bit_and x (high_mask k n) ≡ 0) ↔ (x < 2 ^ k)
and-high_mask zero n x h = (λ e. omega (arith, and_ones n x h), λ l. omega (arith, and_ones n x h))
and-high_mask (suc k) n x h =
    let ih = and-high_mask k n (x / 2) (omega arith) in
    (
      λ e.
          let half : bit_and (x / 2) (high_mask k n) ≡ 0 =
            omega (arith, and_double x (high_mask k n)) in
          omega (arith, ih.0 half),
      λ l.
          let small : x / 2 < 2 ^ k = omega arith in
          omega (arith, and_double x (high_mask k n), ih.1 small),
    )

-- one more low one under a mask
and_low_one : (m x : ℕ) → (bit_and x (m * 2 + 1) ≡ 0) ↔ ((x % 2 ≡ 0) × (bit_and (x / 2) m ≡ 0))
and_low_one m x =
    let half : (m * 2 + 1) / 2 ≡ m = omega arith in
    let digit : bit_and x (m * 2 + 1) ≡ x % 2 + 2 * bit_and (x / 2) m =
      omega (arith, and-digit x (m * 2 + 1), ap (bit_and (x / 2)) half) in
    ((λ e. (omega (arith, digit), omega (arith, digit))), λ (p, q). omega (arith, digit))

-- bits 0 to 6, and bits 9 to 30
and_7ffffe7f : (x : ℕ) → x < 2 ^ 31 → (bit_and x 0x7ffffe7f ≡ 0) ↔ ((x % 128 ≡ 0) × (x / 128 < 4))
and_7ffffe7f x h = ground (
  arith,
  and_low_one 0x3fffff3f x,
  and_low_one 0x1fffff9f (x / 2),
  and_low_one 0xfffffcf (x / 2 / 2),
  and_low_one 0x7ffffe7 (x / 2 / 2 / 2),
  and_low_one 0x3fffff3 (x / 2 / 2 / 2 / 2),
  and_low_one 0x1fffff9 (x / 2 / 2 / 2 / 2 / 2),
  and_low_one 0xfffffc (x / 2 / 2 / 2 / 2 / 2 / 2),
  and-high_mask 2 22 (x / 2 / 2 / 2 / 2 / 2 / 2 / 2) (omega arith),
)

-- bits 1 to 7, and bits 10 to 31
pub and_fffffcfe : (x : ℕ) → x < 2 ^ 32 → (bit_and x 0xfffffcfe ≡ 0) ↔ ((x % 256 < 2) × (x < 1024))
and_fffffcfe x h =
    let ih = and_7ffffe7f (x / 2) (omega arith) in ground (arith, and_double x 0x7ffffe7f, ih)
