-- ===== src/HashTable/Laws.antt =====
-- src/lib/hash_table.c refines a finite map: what the operations return, what later lookups see,
-- and that the table stays well formed.
use trema.Base.{
  ℕ, ◌%◌, ◌≤◌, ◌<◌, ◌≡◌, ◌∙◌, refl, sym, ap, true, none, some, [], ◌∷◌, ◌==◌, arith, if◌then◌else◌,
  All, ==_iff, Bool-cases, inl, inr,
}
use trema.HashTable.{
  HashTable, lookup_hash_entry, delete_hash_entry, insert_hash_entry, create_hash_with_size,
}
use trema.HashTable.Bucket.{
  EntryList, find, remove, multiplicity, find-remove, multiplicity-remove-le, multiplicity-eq-zero,
  All-remove,
}
use trema.HashTable.Index.{occurrences, total}
use trema.HashTable.Valid.{home, bucket, IsHome, IsValid}
use trema.HashTable.Entries.{
  lookup-find, delete-entries, delete-number_of_buckets, insert-entries, insert-number_of_buckets,
}
use trema.HashTable.Shape.{IsShaped, delete-IsShaped, insert-IsShaped}
use trema.TableKey.{Key, compare_congr_left}

module _ {ℓ} {K : Type ℓ} ⦃key : Key K⦄ where
  home_congr :
      (n : ℕ) (q k : K)
      → key.legal q ≡ true
      → key.legal k ≡ true
      → key.compare q k ≡ true
      → home n q ≡ home n k
  home_congr n q k lq lk e = ap (λ h. h % n) (key.hash-compare q k lq lk e)

module _ {ℓ} {K V : Type ℓ} ⦃key : Key K⦄ where
  IsValid-IsShaped : {t : HashTable K V} → IsValid t → IsShaped t
  IsValid-IsShaped v = record {
    numbering = record { indexed = v.indexed; counted = v.counted };
    filled = v.filled;
  }

  -- A table is well formed by its shape and by the entries of each bucket.
  IsValid-of :
      {t : HashTable K V}
      → 0 < t.number_of_buckets
      → IsShaped t
      → ((i : ℕ) → All (IsHome t.number_of_buckets i) (bucket t i))
      → ((q : K) (i : ℕ) → multiplicity q (bucket t i) ≤ 1)
      → IsValid t
  IsValid-of pos s p o = record {
    sized = pos;
    placed = p;
    once = o;
    indexed = s.numbering.indexed;
    filled = s.filled;
    counted = s.numbering.counted;
  }

  pub create-IsValid : (n : ℕ) → 0 < n → IsValid {K = K} {V = V} (create_hash_with_size n)
  unfolding create_hash_with_size multiplicity occurrences total
  create-IsValid n pos = record {
    sized = pos;
    placed = λ i. tt;
    once = λ q i. omega arith;
    indexed = λ i. refl;
    filled = λ i. ground arith;
    counted = refl;
  }

  pub lookup-create : (n : ℕ) (q : K) → lookup_hash_entry {V = V} (create_hash_with_size n) q ≡ none
  unfolding create_hash_with_size lookup_hash_entry
  lookup-create n q = refl

  module _ (t : HashTable K V) (valid : IsValid t) (k : K) where
    -- Deleting a key keeps a well formed table well formed.
    pub delete-IsValid : IsValid (delete_hash_entry t k).1
    delete-IsValid =
        IsValid-of (rw (delete-number_of_buckets t k) valid.sized)
          (delete-IsShaped t k (IsValid-IsShaped valid))
          (λ i.
            rw (delete-number_of_buckets t k, delete-entries t k i)
              (elim (Bool-cases (i == home t.number_of_buckets k)) [
                | inl e ↦ rw e (All-remove _ k (bucket t i) (valid.placed i))
                | inr e ↦ rw e (valid.placed i)
              ]))
          (λ q i.
            ground (
              arith,
              delete-entries t k i,
              valid.once q i,
              multiplicity-remove-le k q (bucket t i),
            ))

    -- After a deletion of a legal key from a well formed table the key, and every legal key that
    -- compares equal, is missed; every other legal key reads what it did.
    pub lookup-delete :
        (q : K)
        → key.legal q ≡ true
        → key.legal k ≡ true
        → lookup_hash_entry (delete_hash_entry t k).1 q
          ≡ (if key.compare q k then none else lookup_hash_entry t q)
    lookup-delete q lq lk =
        let m = t.number_of_buckets in
        let i = home m q in
        rw (lookup-find (delete_hash_entry t k).1 q, delete-number_of_buckets t k)
          (ground (
            arith,
            delete-entries t k i,
            lookup-find t q,
            find-remove k q (bucket t i) (valid.once q i),
            home_congr m q k lq lk,
          ))

    once-insert : (v : V) (q : K) (i : ℕ) → multiplicity q ((k, v) ∷ remove k (bucket t i)) ≤ 1
    unfolding multiplicity
    once-insert v q i =
        let c = bucket t i in
        ground (
          arith,
          key.compare_refl k,
          find-remove k k c (valid.once k i),
          multiplicity-eq-zero k q (remove k c),
          multiplicity-remove-le k q c,
          valid.once q i,
        )

    -- Inserting a legal key keeps a well formed table well formed.
    pub insert-IsValid : (v : V) → key.legal k ≡ true → IsValid (insert_hash_entry t k v).1
    insert-IsValid v lk =
        IsValid-of (rw (insert-number_of_buckets t k v) valid.sized)
          (insert-IsShaped t k v (IsValid-IsShaped valid))
          (λ i.
            rw (insert-number_of_buckets t k v, insert-entries t k v i)
              (elim (Bool-cases (i == home t.number_of_buckets k)) [
                | inl e ↦
                    rw e
                      ((lk, sym ((==_iff _ _).0 e)), All-remove _ k (bucket t i) (valid.placed i))
                | inr e ↦ rw e (valid.placed i)
              ]))
          (λ q i. ground (arith, insert-entries t k v i, valid.once q i, once-insert v q i))

    -- After an insertion of a legal key into a well formed table the key, and every legal key that
    -- compares equal, reads the new value; every other legal key reads what it did.
    pub lookup-insert :
        (v : V) (q : K)
        → key.legal q ≡ true
        → key.legal k ≡ true
        → lookup_hash_entry (insert_hash_entry t k v).1 q
          ≡ (if key.compare q k then some v else lookup_hash_entry t q)
    unfolding find
    lookup-insert v q lq lk =
        let m = t.number_of_buckets in
        let i = home m q in
        rw (lookup-find (insert_hash_entry t k v).1 q, insert-number_of_buckets t k v)
          (ground (
            arith,
            insert-entries t k v i,
            lookup-find t q,
            find-remove k q (bucket t i) (valid.once q i),
            home_congr m q k lq lk,
          ))

module _ {ℓ} {K V : Type ℓ} ⦃key : Key K⦄ where
  find_congr : (q k : K) (c : EntryList K V) → key.compare q k ≡ true → find q c ≡ find k c
  unfolding find
  find_congr q k [] e = refl
  find_congr q k (x ∷ c) e = ground (arith, find_congr q k c e, compare_congr_left q k x.0 e)

  -- Keys that compare equal read one entry.
  pub lookup_congr :
      (t : HashTable K V) (q k : K)
      → key.legal q ≡ true
      → key.legal k ≡ true
      → key.compare q k ≡ true
      → lookup_hash_entry t q ≡ lookup_hash_entry t k
  lookup_congr t q k lq lk e =
      lookup-find t q
      ∙ ap (λ i. find q (bucket t i)) (home_congr t.number_of_buckets q k lq lk e)
      ∙ find_congr q k (bucket t (home t.number_of_buckets k)) e
      ∙ sym (lookup-find t k)
