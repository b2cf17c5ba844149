-- ===== src/TableKey.antt =====
-- The `compare` and `hash` functions of a hash_table (src/lib/hash_table.h), with what a caller has
-- to keep: on the keys that it uses, `compare` is an equivalence and equal keys have one hash
-- value.
use trema.Base.{ℕ, Bool, true, ◌≡◌, arith}

pub record Key {ℓ} (K : Type ℓ) : Type ℓ where
  pub compare : K → K → Bool
  pub hash : K → ℕ
  -- the keys that the caller stores and looks up
  pub legal : K → Bool
  pub compare_refl : (a : K) → compare a a ≡ true
  pub compare_symm : (a b : K) → compare a b ≡ compare b a
  pub compare_trans : (a b c : K) → compare a b ≡ true → compare b c ≡ true → compare a c ≡ true
  pub hash-compare :
      (a b : K) → legal a ≡ true → legal b ≡ true → compare a b ≡ true → hash a ≡ hash b

module _ {ℓ} {K : Type ℓ} ⦃key : Key K⦄ where
  -- Keys that compare equal compare alike with every third key.
  pub compare_congr_left : (a b c : K) → key.compare a b ≡ true → key.compare a c ≡ key.compare b c
  compare_congr_left a b c e =
      ground (arith, key.compare_trans a b c, key.compare_trans b a c, key.compare_symm a b)

  pub compare_congr_right : (a b c : K) → key.compare b c ≡ true → key.compare a b ≡ key.compare a c
  compare_congr_right a b c e =
      ground (arith, key.compare_trans a b c, key.compare_trans a c b, key.compare_symm b c)
