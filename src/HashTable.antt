-- ===== src/HashTable.antt =====
-- src/lib/hash_table.c. The array of buckets is a function of the index, `none` for a NULL bucket;
-- a bucket is the list of the entries behind its head element. A NULL value cannot be told from a
-- missing entry in the source, so values are never NULL.
pub mod Bucket
pub mod Index
pub mod Valid
pub mod Entries
pub mod Shape
pub mod Laws
pub mod Iterate
pub mod Walk
pub mod Visits
use trema.Base.{
  ℕ, zero, suc, ◌+◌, ◌-◌, ◌%◌, ◌^◌, Bool, true, false, Option, none, some, List, [], ◌∷◌, ◌==◌,
  if◌then◌else◌, update,
}
use trema.TableKey.{Key}
use trema.HashTable.Bucket.{EntryList, find, remove}

pub record HashTable {ℓ} (K V : Type ℓ) : Type ℓ where
  pub number_of_buckets : ℕ
  pub length : ℕ
  pub buckets : ℕ → Option (EntryList K V)
  pub nonempty_bucket_index : List ℕ

abbrev pub default_hash_size : ℕ
default_hash_size = 65521

unfoldable pub create_hash_with_size {ℓ} : {K V : Type ℓ} → ℕ → HashTable K V
create_hash_with_size size = record {
  number_of_buckets = size;
  length = 0;
  buckets = λ _. none;
  nonempty_bucket_index = [];
}

unfoldable pub create_hash {ℓ} : {K V : Type ℓ} → HashTable K V
unfolding create_hash_with_size
create_hash = create_hash_with_size default_hash_size

-- `delete_dlist_element` on the element of the index list that stands for bucket `i`
unfoldable pub remove_index : ℕ → List ℕ → List ℕ
remove_index i [] = []
remove_index i (j ∷ js) = if j == i then js else j ∷ remove_index i js

module _ {ℓ} {K V : Type ℓ} where
  unfoldable pub new_bucket : HashTable K V → ℕ → HashTable K V
  new_bucket t i = record t {
    buckets = update t.buckets i (some []);
    nonempty_bucket_index = i ∷ t.nonempty_bucket_index;
  }

  unfoldable pub delete_bucket : HashTable K V → ℕ → HashTable K V
  unfolding remove_index
  delete_bucket t i = record t {
    buckets = update t.buckets i none;
    nonempty_bucket_index = remove_index i t.nonempty_bucket_index;
  }

  -- the entries behind the head of a bucket, none for a NULL bucket
  abbrev pub entries_of : Option (EntryList K V) → EntryList K V
  entries_of none = []
  entries_of (some c) = c

  -- the end of `delete_hash_entry`, with `c` what is left of bucket `i`
  unfoldable pub put_back : HashTable K V → ℕ → EntryList K V → HashTable K V
  unfolding delete_bucket
  put_back t i [] = delete_bucket t i
  put_back t i (e ∷ c) = record t { buckets = update t.buckets i (some (e ∷ c)) }

  -- the end of `insert_hash_entry`
  unfoldable pub push_front : HashTable K V → ℕ → K → V → HashTable K V
  push_front t i k v = record t {
    length = (t.length + 1) % 2 ^ 32;
    buckets = update t.buckets i (some ((k, v) ∷ entries_of (t.buckets i)));
  }

  unfoldable pub ensure_bucket : HashTable K V → ℕ → HashTable K V
  unfolding new_bucket
  ensure_bucket t i = elim (t.buckets i) [ none ↦ new_bucket t i | some c ↦ t ]

module _ {ℓ} {K V : Type ℓ} ⦃key : Key K⦄ where
  unfoldable pub get_bucket_index : HashTable K V → K → ℕ
  get_bucket_index t k = key.hash k % t.number_of_buckets

  unfoldable pub lookup_hash_entry : HashTable K V → K → Option V
  unfolding get_bucket_index
  lookup_hash_entry t k = elim (t.buckets (get_bucket_index t k)) [
    | none ↦ none
    | some c ↦ find k c
  ]

  -- after the search of bucket `i`, whose entries are `c`
  unfoldable pub delete_found :
      HashTable K V → ℕ → K → EntryList K V → Option V → Option V × HashTable K V
  unfolding put_back
  delete_found t i k c none = (none, put_back t i c)
  delete_found t i k c (some v) =
      (some v, put_back (record t { length = (t.length + (2 ^ 32 - 1)) % 2 ^ 32 }) i (remove k c))

  unfoldable pub delete_from :
      HashTable K V → ℕ → K → Option (EntryList K V) → Option V × HashTable K V
  unfolding delete_found
  delete_from t i k none = (none, t)
  delete_from t i k (some c) = delete_found t i k c (find k c)

  unfoldable pub delete_hash_entry : HashTable K V → K → Option V × HashTable K V
  unfolding get_bucket_index delete_from
  delete_hash_entry t k = let i = get_bucket_index t k in delete_from t i k (t.buckets i)

  -- An old entry of the key is deleted first, and its bucket with it when it was the only one.
  unfoldable pub clear_old : HashTable K V → K → Option V → HashTable K V
  unfolding delete_hash_entry
  clear_old t k none = t
  clear_old t k (some old_value) = (delete_hash_entry t k).1

  unfoldable pub insert_hash_entry : HashTable K V → K → V → Option V × HashTable K V
  unfolding get_bucket_index lookup_hash_entry clear_old ensure_bucket push_front
  insert_hash_entry t k v =
      let i = get_bucket_index t k in
      let old_value = lookup_hash_entry t k in
      (old_value, push_front (ensure_bucket (clear_old t k old_value) i) i k v)
