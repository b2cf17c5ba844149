-- ===== src/HashTable/Valid.antt =====
-- When a table of src/lib/hash_table.c is well formed, and what each operation does to its buckets.
use trema.Base.{ℕ, ◌%◌, ◌^◌, ◌≤◌, ◌<◌, ◌≡◌, ◌≢◌, true, some, [], is_some, All}
use trema.HashTable.{HashTable, entries_of}
use trema.HashTable.Bucket.{EntryList, multiplicity, as_number}
use trema.HashTable.Index.{occurrences, total}
use trema.TableKey.{Key}

-- the bucket that a key belongs to, in a table of `n` buckets
abbrev pub home {ℓ} : {K : Type ℓ} ⦃key : Key K⦄ → ℕ → K → ℕ
home ⦃key⦄ n k = key.hash k % n

module _ {ℓ} {K V : Type ℓ} ⦃key : Key K⦄ where
  abbrev pub IsHome : ℕ → ℕ → K × V → Type 0
  IsHome n i e = (key.legal e.0 ≡ true) × (home n e.0 ≡ i)

  abbrev pub bucket : HashTable K V → ℕ → EntryList K V
  bucket t i = entries_of (t.buckets i)

  -- Every entry stands in the home bucket of its legal key, no two keys compare equal, the index
  -- lists each bucket that is not NULL once, no such bucket is empty, and `length` counts entries.
  pub record IsValid (t : HashTable K V) : Type ℓ where
    pub sized : 0 < t.number_of_buckets
    pub placed : (i : ℕ) → All (IsHome t.number_of_buckets i) (bucket t i)
    pub once : (q : K) (i : ℕ) → multiplicity q (bucket t i) ≤ 1
    pub indexed :
        (i : ℕ) → occurrences i t.nonempty_bucket_index ≡ as_number (is_some (t.buckets i))
    pub filled : (i : ℕ) → t.buckets i ≢ some []
    pub counted : t.length ≡ total t.buckets t.nonempty_bucket_index % 2 ^ 32
