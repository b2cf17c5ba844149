-- ===== src/Messenger/Bytes.antt =====
-- src/lib/messenger.c: the bytes from a place of a memory on, as a list, and copies of them.
use trema.Base.{
  ℕ, zero, suc, ◌+◌, ◌-◌, ◌≤◌, ◌<◌, ◌≡◌, ◌∙◌, refl, sym, ap, true, ◌||◌, List, [], ◌∷◌, ◌++◌,
  length, take, drop, ◌==◌, arith,
}
use trema.Buffer.{copy_bytes}
use trema.Create.{at}
use trema.Messenger.{bytes_from}

start_place : (s : ℕ) → s + 0 ≡ s
start_place s = omega arith

zero_place : (k : ℕ) → 0 + k ≡ k
zero_place k = omega arith

suc_place : (n k : ℕ) → suc n + k ≡ suc (n + k)
suc_place n k = omega arith

next_place : (s i : ℕ) → s + 1 + i ≡ s + suc i
next_place s i = omega arith

pub bytes-same :
    (f g : ℕ → ℕ) (s t n : ℕ)
    → ((i : ℕ) → i < n → f (s + i) ≡ g (t + i))
    → bytes_from f s n ≡ bytes_from g t n
unfolding bytes_from
bytes-same f g s t zero h = refl
bytes-same f g s t (suc n) h =
    let first : f s ≡ g t = sym (ap f (start_place s)) ∙ h 0 (omega arith) ∙ ap g (start_place t) in
    let others =
      bytes-same f g (s + 1) (t + 1) n
        (λ i lt. ap f (next_place s i) ∙ h (suc i) (omega arith) ∙ sym (ap g (next_place t i))) in
    ap (λ x. x ∷ bytes_from f (s + 1) n) first ∙ ap (λ l. g t ∷ l) others

pub bytes-append :
    (f : ℕ → ℕ) (s n k : ℕ) → bytes_from f s (n + k) ≡ bytes_from f s n ++ bytes_from f (s + n) k
unfolding bytes_from
bytes-append f s zero k =
    ap (bytes_from f s) (zero_place k) ∙ sym (ap (λ t. bytes_from f t k) (start_place s))
bytes-append f s (suc n) k =
    ap (bytes_from f s) (suc_place n k)
    ∙ ap (λ l. f s ∷ l)
        (bytes-append f (s + 1) n k
          ∙ ap (λ t. bytes_from f (s + 1) n ++ bytes_from f t k) (next_place s n))

pub drop-bytes_from :
    (f : ℕ → ℕ) (s n k : ℕ) → k ≤ n → drop k (bytes_from f s n) ≡ bytes_from f (s + k) (n - k)
unfolding bytes_from
drop-bytes_from f s n zero h =
    let same : n - 0 ≡ n = omega arith in
    sym (ap (λ t. bytes_from f t (n - 0)) (start_place s) ∙ ap (bytes_from f s) same)
drop-bytes_from f s zero (suc k) h = absurd (omega arith)
drop-bytes_from f s (suc n) (suc k) h =
    let left : n - k ≡ suc n - suc k = omega arith in
    drop-bytes_from f (s + 1) n k (omega arith)
    ∙ ap (λ t. bytes_from f t (n - k)) (next_place s k)
    ∙ ap (bytes_from f (s + suc k)) left

pub take-bytes_from : (f : ℕ → ℕ) (s n k : ℕ) → k ≤ n → take k (bytes_from f s n) ≡ bytes_from f s k
unfolding bytes_from
take-bytes_from f s n zero h = refl
take-bytes_from f s zero (suc k) h = absurd (omega arith)
take-bytes_from f s (suc n) (suc k) h =
    ap (λ l. f s ∷ l) (take-bytes_from f (s + 1) n k (omega arith))

pub at-bytes_from : (f : ℕ → ℕ) (s n i : ℕ) → i < n → at (bytes_from f s n) i ≡ f (s + i)
unfolding bytes_from
at-bytes_from f s zero i h = absurd (omega arith)
at-bytes_from f s (suc n) zero h = sym (ap f (start_place s))
at-bytes_from f s (suc n) (suc i) h =
    at-bytes_from f (s + 1) n i (omega arith) ∙ ap f (next_place s i)

pub length-bytes_from : (f : ℕ → ℕ) (s n : ℕ) → length (bytes_from f s n) ≡ n
unfolding bytes_from
length-bytes_from f s zero = refl
length-bytes_from f s (suc n) = omega (arith, length-bytes_from f (s + 1) n)

later : (x : ℕ) (xs : List ℕ) (i : ℕ) → at (x ∷ xs) (1 + i) ≡ at xs (0 + i)
later x xs i =
    let above : 1 + i ≡ suc i = omega arith in
    ap (at (x ∷ xs)) above ∙ sym (ap (at xs) (zero_place i))

pub bytes_from-at : (xs ys : List ℕ) → bytes_from (at (xs ++ ys)) 0 (length xs) ≡ xs
unfolding bytes_from
bytes_from-at [] ys = refl
bytes_from-at (x ∷ xs) ys =
    ap (λ l. x ∷ l)
      (bytes-same (at (x ∷ xs ++ ys)) (at (xs ++ ys)) 1 0 (length xs) (λ i lt. later x (xs ++ ys) i)
        ∙ bytes_from-at xs ys)

-- Bytes that stand apart from what is copied.
pub copy-outside :
    (to : ℕ → ℕ) (at_place : ℕ) (from : ℕ → ℕ) (start n j : ℕ)
    → j < at_place
    → copy_bytes to at_place from start n j ≡ to j
unfolding copy_bytes
copy-outside to at_place from start n j h = ground arith

pub copy-inside :
    (to : ℕ → ℕ) (at_place : ℕ) (from : ℕ → ℕ) (start n i : ℕ)
    → i < n
    → copy_bytes to at_place from start n (at_place + i) ≡ from (start + i)
unfolding copy_bytes
copy-inside to at_place from start n i lt =
    let same : start + (at_place + i - at_place) ≡ start + i = omega arith in
    ground (arith, ap from same)

-- `memcpy` behind a run of bytes.
pub copied_behind :
    (to from : ℕ → ℕ) (start n k : ℕ)
    → bytes_from (copy_bytes to (start + n) from 0 k) start (n + k)
      ≡ bytes_from to start n ++ bytes_from from 0 k
copied_behind to from start n k =
    let f = copy_bytes to (start + n) from 0 k in
    let before =
      bytes-same f to start start n
        (λ i lt. copy-outside to (start + n) from 0 k (start + i) (omega arith)) in
    let behind =
      bytes-same f from (start + n) 0 k (λ i lt. copy-inside to (start + n) from 0 k i lt) in
    bytes-append f start n k
    ∙ ap (λ l. l ++ bytes_from f (start + n) k) before
    ∙ ap (λ l. bytes_from to start n ++ l) behind

pub drop_all : (f : ℕ → ℕ) (s n len : ℕ) → n ≤ len → drop len (bytes_from f s n) ≡ []
unfolding bytes_from
drop_all f s zero zero h = refl
drop_all f s zero (suc len) h = refl
drop_all f s (suc n) zero h = absurd (omega arith)
drop_all f s (suc n) (suc len) h = drop_all f (s + 1) n len (omega arith)

pub drop_nothing :
    (f : ℕ → ℕ) (s n len : ℕ)
    → len == 0 || n == 0 ≡ true
    → drop len (bytes_from f s n) ≡ bytes_from f s n
unfolding bytes_from
drop_nothing f s n zero e = refl
drop_nothing f s zero (suc len) e = refl
drop_nothing f s (suc n) (suc len) e = absurd (ground arith)
