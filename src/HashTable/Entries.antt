-- ===== src/HashTable/Entries.antt =====
-- What each operation of src/lib/hash_table.c does to the entries of every bucket.
use trema.Base.{ℕ, ◌≡◌, ◌∙◌, refl, sym, Option, none, some, [], ◌∷◌, ◌==◌, arith, if◌then◌else◌}
use trema.HashTable.{
  HashTable, entries_of, lookup_hash_entry, delete_hash_entry, insert_hash_entry, ensure_bucket,
  push_front, clear_old, put_back, delete_found, delete_from,
}
use trema.HashTable.Bucket.{EntryList, find, remove, remove_absent}
use trema.TableKey.{Key}
use trema.HashTable.Valid.{home, bucket}

module _ {ℓ} {K V : Type ℓ} ⦃key : Key K⦄ where
  pub lookup-find :
      (t : HashTable K V) (k : K)
      → lookup_hash_entry t k ≡ find k (bucket t (home t.number_of_buckets k))
  unfolding lookup_hash_entry find
  lookup-find t k = ground arith

  put_back-entries :
      (t : HashTable K V) (i : ℕ) (c : EntryList K V) (j : ℕ)
      → bucket (put_back t i c) j ≡ (if j == i then c else bucket t j)
  unfolding put_back
  put_back-entries t i [] j = ground arith
  put_back-entries t i (e ∷ c) j = ground arith

  delete_found-entries :
      (t : HashTable K V) (i : ℕ) (k : K) (c : EntryList K V) (o : Option V) (j : ℕ)
      → o ≡ find k c
      → bucket (delete_found t i k c o).1 j ≡ (if j == i then remove k c else bucket t j)
  unfolding delete_found
  delete_found-entries t i k c none j h = rw (remove_absent k c (sym h)) (put_back-entries t i c j)
  delete_found-entries t i k c (some v) j h = put_back-entries _ i (remove k c) j

  delete_from-entries :
      (t : HashTable K V) (i : ℕ) (k : K) (b : Option (EntryList K V)) (j : ℕ)
      → b ≡ t.buckets i
      → bucket (delete_from t i k b).1 j ≡ (if j == i then remove k (entries_of b) else bucket t j)
  unfolding delete_from remove
  delete_from-entries t i k none j h = ground arith
  delete_from-entries t i k (some c) j h = delete_found-entries t i k c (find k c) j refl

  pub delete-entries :
      (t : HashTable K V) (k : K) (j : ℕ)
      → bucket (delete_hash_entry t k).1 j
        ≡ (if j == home t.number_of_buckets k then remove k (bucket t j) else bucket t j)
  unfolding delete_hash_entry
  delete-entries t k j =
      let i = home t.number_of_buckets k in
      ground (arith, delete_from-entries t i k (t.buckets i) j)

  pub delete-returns :
      (t : HashTable K V) (k : K) → (delete_hash_entry t k).0 ≡ lookup_hash_entry t k
  unfolding delete_hash_entry lookup_hash_entry
  delete-returns t k = ground arith

  pub delete-number_of_buckets :
      (t : HashTable K V) (k : K)
      → (delete_hash_entry t k).1.number_of_buckets ≡ t.number_of_buckets
  unfolding delete_hash_entry
  delete-number_of_buckets t k = ground arith

  ensure_bucket-entries : (t : HashTable K V) (i j : ℕ) → bucket (ensure_bucket t i) j ≡ bucket t j
  unfolding ensure_bucket
  ensure_bucket-entries t i j = ground arith

  push_front-entries :
      (t : HashTable K V) (i : ℕ) (k : K) (v : V) (j : ℕ)
      → bucket (push_front t i k v) j ≡ (if j == i then (k, v) ∷ bucket t i else bucket t j)
  unfolding push_front
  push_front-entries t i k v j = ground arith

  clear_old-entries :
      (t : HashTable K V) (k : K) (o : Option V) (j : ℕ)
      → o ≡ lookup_hash_entry t k
      → bucket (clear_old t k o) j
        ≡ (if j == home t.number_of_buckets k then remove k (bucket t j) else bucket t j)
  unfolding clear_old
  clear_old-entries t k none j h =
      let i = home t.number_of_buckets k in
      ground (arith, remove_absent k (bucket t i), lookup-find t k)
  clear_old-entries t k (some v) j h = delete-entries t k j

  pub insert-entries :
      (t : HashTable K V) (k : K) (v : V) (j : ℕ)
      → bucket (insert_hash_entry t k v).1 j
        ≡ (if j == home t.number_of_buckets k then (k, v) ∷ remove k (bucket t j) else bucket t j)
  unfolding insert_hash_entry
  insert-entries t k v j =
      let i = home t.number_of_buckets k in
      let o = lookup_hash_entry t k in
      ground (
        arith,
        push_front-entries (ensure_bucket (clear_old t k o) i) i k v j,
        ensure_bucket-entries (clear_old t k o) i j,
        ensure_bucket-entries (clear_old t k o) i i,
        clear_old-entries t k o j,
        clear_old-entries t k o i,
      )

  pub insert-returns :
      (t : HashTable K V) (k : K) (v : V) → (insert_hash_entry t k v).0 ≡ lookup_hash_entry t k
  unfolding insert_hash_entry
  insert-returns t k v = refl

  clear_old-number_of_buckets :
      (t : HashTable K V) (k : K) (o : Option V)
      → (clear_old t k o).number_of_buckets ≡ t.number_of_buckets
  unfolding clear_old
  clear_old-number_of_buckets t k none = refl
  clear_old-number_of_buckets t k (some v) = delete-number_of_buckets t k

  ensure_bucket-number_of_buckets :
      (t : HashTable K V) (i : ℕ) → (ensure_bucket t i).number_of_buckets ≡ t.number_of_buckets
  unfolding ensure_bucket
  ensure_bucket-number_of_buckets t i = ground arith

  pub insert-number_of_buckets :
      (t : HashTable K V) (k : K) (v : V)
      → (insert_hash_entry t k v).1.number_of_buckets ≡ t.number_of_buckets
  unfolding insert_hash_entry push_front
  insert-number_of_buckets t k v =
      let o = lookup_hash_entry t k in
      ensure_bucket-number_of_buckets (clear_old t k o) (home t.number_of_buckets k)
      ∙ clear_old-number_of_buckets t k o
