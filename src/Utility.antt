-- ===== src/Utility.antt =====
-- The key functions of src/lib/utility.c and src/lib/hash_table.c. A key in memory is its bytes; a
-- number is stored low byte first.
use trema.Base.{
  ℕ, zero, suc, ◌-◌, ==_iff, ==_refl, ==_symm, ==_trans, ◌*◌, ◌/◌, ◌%◌, ◌^◌, ◌≡◌, refl, ap, Bool,
  true, false, List, [], ◌∷◌, ◌&&◌, ◌==◌, arith, bit_xor,
}
use trema.TableKey.{Key}

abbrev pub unsigned_max : ℕ
unsigned_max = 2 ^ 32 - 1

-- FNV-1a: offset basis, then xor with each byte and multiply by the prime, in 32 bits
unfoldable pub hash_core : ℕ → List ℕ → ℕ
hash_core hash_value [] = hash_value
hash_core hash_value (c ∷ cs) = hash_core (bit_xor hash_value c * 0x01000193 % 2 ^ 32) cs

abbrev pub offset_basis : ℕ
offset_basis = 0x811c9dc5

-- the bytes of a number of `n` bytes
unfoldable pub bytes_of : ℕ → ℕ → List ℕ
bytes_of zero x = []
bytes_of (suc n) x = x % 256 ∷ bytes_of n (x / 256)

unfoldable pub hash_string : List ℕ → ℕ
unfolding hash_core
hash_string s = hash_core offset_basis s

unfoldable pub compare_string : List ℕ → List ℕ → Bool
compare_string [] [] = true
compare_string [] (y ∷ ys) = false
compare_string (x ∷ xs) [] = false
compare_string (x ∷ xs) (y ∷ ys) = (x == y) && compare_string xs ys

abbrev pub hash_mac : List ℕ → ℕ
hash_mac mac = hash_core offset_basis mac

abbrev pub compare_uint32 : ℕ → ℕ → Bool
compare_uint32 x y = x == y

unfoldable pub hash_uint32 : ℕ → ℕ
hash_uint32 x = x % unsigned_max

abbrev pub compare_datapath_id : ℕ → ℕ → Bool
compare_datapath_id x y = x == y

unfoldable pub hash_datapath_id : ℕ → ℕ
unfolding hash_core bytes_of
hash_datapath_id x = hash_core offset_basis (bytes_of 8 x)

pub hash-eq : (f : ℕ → ℕ) (a b : ℕ) → true ≡ true → true ≡ true → (a == b) ≡ true → f a ≡ f b
hash-eq f a b p q e = ap f ((==_iff a b).0 e)

pub compare_string→eq : (s t : List ℕ) → compare_string s t ≡ true → s ≡ t
unfolding compare_string
compare_string→eq [] [] h = refl
compare_string→eq [] (y ∷ ys) h = ground arith
compare_string→eq (x ∷ xs) [] h = ground arith
compare_string→eq (x ∷ xs) (y ∷ ys) h = ground (arith, compare_string→eq xs ys)

pub compare_string_refl : (s : List ℕ) → compare_string s s ≡ true
unfolding compare_string
compare_string_refl [] = refl
compare_string_refl (x ∷ xs) = ground (arith, compare_string_refl xs)

pub compare_string_symm : (s t : List ℕ) → compare_string s t ≡ compare_string t s
unfolding compare_string
compare_string_symm [] [] = refl
compare_string_symm [] (y ∷ ys) = refl
compare_string_symm (x ∷ xs) [] = refl
compare_string_symm (x ∷ xs) (y ∷ ys) = ground (arith, compare_string_symm xs ys)

pub compare_string_trans :
    (s t u : List ℕ)
    → compare_string s t ≡ true
    → compare_string t u ≡ true
    → compare_string s u ≡ true
compare_string_trans s t u p q = rw (compare_string→eq s t p) q

pub hash-compare_string :
    (s t : List ℕ)
    → true ≡ true
    → true ≡ true
    → compare_string s t ≡ true
    → hash_string s ≡ hash_string t
hash-compare_string s t p q e = ap hash_string (compare_string→eq s t e)

-- Keys of `create_hash( compare_uint32, hash_uint32 )`.
instance abbrev pub uint32_key : Key ℕ
uint32_key = record {
  compare = compare_uint32;
  hash = hash_uint32;
  legal = λ _. true;
  compare_refl = ==_refl;
  compare_symm = ==_symm;
  compare_trans = ==_trans;
  hash-compare = hash-eq hash_uint32;
}

-- Keys of `create_hash( compare_datapath_id, hash_datapath_id )`.
instance abbrev pub datapath_id_key : Key ℕ
datapath_id_key = record {
  compare = compare_datapath_id;
  hash = hash_datapath_id;
  legal = λ _. true;
  compare_refl = ==_refl;
  compare_symm = ==_symm;
  compare_trans = ==_trans;
  hash-compare = hash-eq hash_datapath_id;
}

-- Keys of `create_hash( compare_string, hash_string )`.
instance abbrev pub string_key : Key (List ℕ)
string_key = record {
  compare = compare_string;
  hash = hash_string;
  legal = λ _. true;
  compare_refl = compare_string_refl;
  compare_symm = compare_string_symm;
  compare_trans = compare_string_trans;
  hash-compare = hash-compare_string;
}
