-- ===== src/Create/Counters.antt =====
-- src/lib/openflow_message.c: the counters of transaction ids and of cookies, whose high 16 bits are
-- those of the process id.
use trema.Base.{
  ℕ, zero, suc, ◌+◌, ◌-◌, ◌*◌, ◌/◌, ◌%◌, ◌^◌, ◌<◌, ◌≡◌, ◌≢◌, ◌∙◌, refl, ap, ◌==◌, if◌then◌else◌,
  bit_and, arith,
}
use trema.Bits.Digits.{and-digit}
use trema.Bits.{and_ones, and-zero, half_ones}
use trema.Bits.Masks.{high_mask, and_double}

-- the counters after `init_openflow_message`, in a process
unfoldable pub init_transaction_id : ℕ → ℕ
init_transaction_id pid = pid * 2 ^ 16 % 2 ^ 32

unfoldable pub init_cookie : ℕ → ℕ
init_cookie pid = pid * 2 ^ 48 % 2 ^ 64

-- the new value of the counter, which is also the result
unfoldable pub get_transaction_id : ℕ → ℕ
get_transaction_id transaction_id =
    if bit_and transaction_id 0xffff == 0xffff
    then bit_and transaction_id 0xffff0000
    else (transaction_id + 1) % 2 ^ 32

unfoldable pub get_cookie : ℕ → ℕ
get_cookie cookie =
    if bit_and cookie 0xffffffffffff == 0xffffffffffff
    then bit_and cookie 0xffff000000000000
    else (cookie + 1) % 2 ^ 64

-- `h * 2 ^ n`
abbrev shifted : (n h : ℕ) → ℕ
shifted zero h = h
shifted (suc n) h = shifted n h * 2

low_part : (n h l a : ℕ) → a ≡ shifted n h + l → l < 2 ^ n → bit_and a (2 ^ n - 1) ≡ l
low_part zero h l a e k = and-zero a ∙ omega arith
low_part (suc n) h l a e k = omega (
  arith,
  and-digit a (2 ^ suc n - 1),
  low_part n h (l / 2) (a / 2) (omega arith) (omega arith),
  half_ones n,
  ap (bit_and (a / 2)) (half_ones n),
)

high_part :
    (k n h l a : ℕ)
    → a ≡ shifted k h + l
    → l < 2 ^ k
    → h < 2 ^ n
    → bit_and a (high_mask k n) ≡ shifted k h
high_part zero n h l a e small fits = and_ones n a (omega arith) ∙ omega arith
high_part (suc k) n h l a e small fits =
    and_double a (high_mask k n)
    ∙ ap (λ x. x * 2) (high_part k n h (l / 2) (a / 2) (omega arith) (omega arith) fits)

id_low : (t : ℕ) → bit_and t 0xffff ≡ t % 2 ^ 16
id_low t = low_part 16 (t / 2 ^ 16) (t % 2 ^ 16) t (omega arith) (omega arith)

id_high : (t : ℕ) → t < 2 ^ 32 → bit_and t 0xffff0000 ≡ t / 2 ^ 16 * 2 ^ 16
id_high t h =
    high_part 16 16 (t / 2 ^ 16) (t % 2 ^ 16) t (omega arith) (omega arith) (omega arith)
    ∙ omega arith

cookie_low : (t : ℕ) → bit_and t 0xffffffffffff ≡ t % 2 ^ 48
cookie_low t = low_part 48 (t / 2 ^ 48) (t % 2 ^ 48) t (omega arith) (omega arith)

cookie_high : (t : ℕ) → t < 2 ^ 64 → bit_and t 0xffff000000000000 ≡ t / 2 ^ 48 * 2 ^ 48
cookie_high t h =
    high_part 48 16 (t / 2 ^ 48) (t % 2 ^ 48) t (omega arith) (omega arith) (omega arith)
    ∙ omega arith

id-Counts :
    (t : ℕ)
    → t < 2 ^ 32
    → (get_transaction_id t < 2 ^ 32)
      × (get_transaction_id t / 2 ^ 16 ≡ t / 2 ^ 16)
      × (get_transaction_id t % 2 ^ 16 ≡ (t % 2 ^ 16 + 1) % 2 ^ 16)
unfolding get_transaction_id
id-Counts t h = ground (arith, id_low t, id_high t h)

cookie-Counts :
    (t : ℕ)
    → t < 2 ^ 64
    → (get_cookie t < 2 ^ 64)
      × (get_cookie t / 2 ^ 48 ≡ t / 2 ^ 48)
      × (get_cookie t % 2 ^ 48 ≡ (t % 2 ^ 48 + 1) % 2 ^ 48)
unfolding get_cookie
cookie-Counts t h = ground (arith, cookie_low t, cookie_high t h)

-- the counter after a number of calls
abbrev pub after_calls : (ℕ → ℕ) → (calls start : ℕ) → ℕ
after_calls next zero start = start
after_calls next (suc n) start = next (after_calls next n start)

id-after_calls :
    (t n : ℕ)
    → t < 2 ^ 32
    → (after_calls get_transaction_id n t < 2 ^ 32)
      × (after_calls get_transaction_id n t / 2 ^ 16 ≡ t / 2 ^ 16)
      × (after_calls get_transaction_id n t % 2 ^ 16 ≡ (t + n) % 2 ^ 16)
id-after_calls t zero h = (h, refl, omega arith)
id-after_calls t (suc n) h =
    let (bound, high, low) = id-after_calls t n h in
    let (bound', high', low') = id-Counts (after_calls get_transaction_id n t) bound in
    (bound', high' ∙ high, omega (arith, low, low'))

cookie-after_calls :
    (t n : ℕ)
    → t < 2 ^ 64
    → (after_calls get_cookie n t < 2 ^ 64)
      × (after_calls get_cookie n t / 2 ^ 48 ≡ t / 2 ^ 48)
      × (after_calls get_cookie n t % 2 ^ 48 ≡ (t + n) % 2 ^ 48)
cookie-after_calls t zero h = (h, refl, omega arith)
cookie-after_calls t (suc n) h =
    let (bound, high, low) = cookie-after_calls t n h in
    let (bound', high', low') = cookie-Counts (after_calls get_cookie n t) bound in
    (bound', high' ∙ high, omega (arith, low, low'))

-- Any 65536 transaction ids that `get_transaction_id` returns one after the other, from a counter of
-- 32 bits, differ, and keep the high 16 bits of the counter, which are those of the process.
pub transaction_ids_differ :
    (t i j : ℕ)
    → t < 2 ^ 32
    → i < j
    → j < i + 2 ^ 16
    → (after_calls get_transaction_id i t ≢ after_calls get_transaction_id j t)
      × (after_calls get_transaction_id i t / 2 ^ 16 ≡ t / 2 ^ 16)
transaction_ids_differ t i j h k l =
    let (_, high, low) = id-after_calls t i h in
    let (_, _, low') = id-after_calls t j h in
    ((λ e. omega (arith, low, low', ap (λ x. x % 2 ^ 16) e)), high)

-- Any 2 ^ 48 cookies that `get_cookie` returns one after the other, from a counter of 64 bits, differ,
-- and keep the high 16 bits of the counter.
pub cookies_differ :
    (t i j : ℕ)
    → t < 2 ^ 64
    → i < j
    → j < i + 2 ^ 48
    → (after_calls get_cookie i t ≢ after_calls get_cookie j t)
      × (after_calls get_cookie i t / 2 ^ 48 ≡ t / 2 ^ 48)
cookies_differ t i j h k l =
    let (_, high, low) = cookie-after_calls t i h in
    let (_, _, low') = cookie-after_calls t j h in
    ((λ e. omega (arith, low, low', ap (λ x. x % 2 ^ 48) e)), high)
