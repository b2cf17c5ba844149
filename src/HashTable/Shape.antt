-- ===== src/HashTable/Shape.antt =====
-- How the operations of src/lib/hash_table.c keep the index of nonempty buckets and `length`.
use trema.Base.{
  ℕ, ◌+◌, ◌-◌, ◌%◌, ◌^◌, ◌≡◌, ◌≢◌, ◌∙◌, refl, sym, ap, true, Option, none, some, [], ◌∷◌, arith,
  length, is_some,
}
use trema.HashTable.{
  HashTable, entries_of, lookup_hash_entry, delete_hash_entry, insert_hash_entry, ensure_bucket,
  push_front, clear_old, put_back, delete_found, delete_from, delete_bucket, remove_index,
}
use trema.HashTable.Bucket.{EntryList, find, remove, as_number, length-remove}
use trema.HashTable.Index.{
  occurrences, total, occurrences-remove_index, total-remove_index, total-update,
  total-update_absent,
}
use trema.HashTable.Valid.{home}
use trema.TableKey.{Key}

module _ {ℓ} {K V : Type ℓ} where
  abbrev pub entries_total : HashTable K V → ℕ
  entries_total t = total t.buckets t.nonempty_bucket_index

  -- The index lists every bucket that is not NULL once, and `length` counts the entries.
  pub record IsIndexed (t : HashTable K V) : Type ℓ where
    pub indexed :
        (i : ℕ) → occurrences i t.nonempty_bucket_index ≡ as_number (is_some (t.buckets i))
    pub counted : t.length ≡ entries_total t % 2 ^ 32

  abbrev pub IsFilled : HashTable K V → Type ℓ
  IsFilled t = (i : ℕ) → t.buckets i ≢ some []

  delete_bucket-total :
      (t : HashTable K V) (i : ℕ)
      → occurrences i t.nonempty_bucket_index ≡ 1
      → entries_total (delete_bucket t i) + length (entries_of (t.buckets i)) ≡ entries_total t
  unfolding delete_bucket
  delete_bucket-total t i h =
      let js = t.nonempty_bucket_index in
      omega (
        arith,
        total-remove_index t.buckets i js (omega arith),
        total-update_absent t.buckets i none (remove_index i js)
            (ground (arith, occurrences-remove_index i i js)),
      )

  put_back-total :
      (t : HashTable K V) (i : ℕ) (c : EntryList K V)
      → occurrences i t.nonempty_bucket_index ≡ 1
      → entries_total (put_back t i c) + length (entries_of (t.buckets i))
        ≡ entries_total t + length c
  unfolding put_back
  put_back-total t i [] h = omega (arith, delete_bucket-total t i h)
  put_back-total t i (e ∷ c) h = total-update t.buckets i (some (e ∷ c)) t.nonempty_bucket_index h

  put_back-indexed :
      (t : HashTable K V) (i : ℕ) (c : EntryList K V)
      → ((j : ℕ) → occurrences j t.nonempty_bucket_index ≡ as_number (is_some (t.buckets j)))
      → is_some (t.buckets i) ≡ true
      → (j : ℕ)
      → occurrences j (put_back t i c).nonempty_bucket_index
        ≡ as_number (is_some ((put_back t i c).buckets j))
  unfolding put_back
  put_back-indexed t i [] h s j =
      ground (arith, h j, h i, occurrences-remove_index i j t.nonempty_bucket_index)
  put_back-indexed t i (e ∷ c) h s j = ground (arith, h j, h i)

  put_back-IsFilled :
      (t : HashTable K V) (i : ℕ) (c : EntryList K V) → IsFilled t → IsFilled (put_back t i c)
  unfolding put_back
  put_back-IsFilled t i [] h j = ground (arith, h j)
  put_back-IsFilled t i (e ∷ c) h j = ground (arith, h j)

  put_back-length :
      (t : HashTable K V) (i : ℕ) (c : EntryList K V) → (put_back t i c).length ≡ t.length
  unfolding put_back
  put_back-length t i [] = refl
  put_back-length t i (e ∷ c) = refl

  ensure_bucket-indexed :
      (t : HashTable K V) (i : ℕ)
      → IsIndexed t
      → (j : ℕ)
      → occurrences j (ensure_bucket t i).nonempty_bucket_index
        ≡ as_number (is_some ((ensure_bucket t i).buckets j))
  unfolding ensure_bucket occurrences
  ensure_bucket-indexed t i s j = ground (arith, s.indexed j, s.indexed i)

  ensure_bucket-counted :
      (t : HashTable K V) (i : ℕ)
      → IsIndexed t
      → (ensure_bucket t i).length ≡ entries_total (ensure_bucket t i) % 2 ^ 32
  unfolding ensure_bucket total
  ensure_bucket-counted t i s = ground (
    arith,
    s.indexed i,
    s.counted,
    total-update_absent t.buckets i (some []) t.nonempty_bucket_index,
  )

  ensure_bucket_some : (t : HashTable K V) (i : ℕ) → is_some ((ensure_bucket t i).buckets i) ≡ true
  unfolding ensure_bucket
  ensure_bucket_some t i = ground arith

  ensure_bucket-other :
      (t : HashTable K V) (i j : ℕ) → j ≢ i → (ensure_bucket t i).buckets j ≡ t.buckets j
  unfolding ensure_bucket
  ensure_bucket-other t i j h = ground arith

  -- The bucket of the new entry is in the index already.
  push_front-IsIndexed :
      (t : HashTable K V) (i : ℕ) (k : K) (v : V)
      → is_some (t.buckets i) ≡ true
      → IsIndexed t
      → IsIndexed (push_front t i k v)
  unfolding push_front
  push_front-IsIndexed t i k v there s = record {
    indexed = λ j. ground (arith, s.indexed j);
    counted =
        let c = entries_of (t.buckets i) in
        omega (
          arith,
          total-update t.buckets i (some ((k, v) ∷ c)) t.nonempty_bucket_index
              (s.indexed i ∙ ap as_number there),
          s.counted,
        );
  }

module _ {ℓ} {K V : Type ℓ} ⦃key : Key K⦄ where
  -- the well-formedness that does not speak of keys
  pub record IsShaped (t : HashTable K V) : Type ℓ where
    pub numbering : IsIndexed t
    pub filled : IsFilled t

  delete_found-IsShaped :
      (t : HashTable K V) (i : ℕ) (k : K) (c : EntryList K V) (o : Option V)
      → t.buckets i ≡ some c
      → o ≡ find k c
      → IsShaped t
      → IsShaped (delete_found t i k c o).1
  unfolding delete_found
  delete_found-IsShaped t i k c none b h s = record {
    numbering = record {
      indexed = put_back-indexed t i c s.numbering.indexed (rw b);
      counted = omega (
        arith,
        put_back-length t i c,
        put_back-total t i c (s.numbering.indexed i ∙ ap (λ o. as_number (is_some o)) b),
        s.numbering.counted,
        ap (λ o. length (entries_of o)) b,
      );
    };
    filled = put_back-IsFilled t i c s.filled;
  }
  delete_found-IsShaped t i k c (some v) b h s = record {
    numbering = record {
      indexed = put_back-indexed _ i (remove k c) s.numbering.indexed (rw b);
      counted =
          let t' = record t { length = (t.length + (2 ^ 32 - 1)) % 2 ^ 32 } in
          omega (
            arith,
            put_back-length t' i (remove k c),
            put_back-total t' i (remove k c)
                (s.numbering.indexed i ∙ ap (λ o. as_number (is_some o)) b),
            s.numbering.counted,
            ap (λ o. length (entries_of o)) b,
            length-remove k v c (sym h),
          );
    };
    filled = put_back-IsFilled _ i (remove k c) s.filled;
  }

  delete_from-IsShaped :
      (t : HashTable K V) (i : ℕ) (k : K) (b : Option (EntryList K V))
      → t.buckets i ≡ b
      → IsShaped t
      → IsShaped (delete_from t i k b).1
  unfolding delete_from
  delete_from-IsShaped t i k none b s = s
  delete_from-IsShaped t i k (some c) b s = delete_found-IsShaped t i k c (find k c) b refl s

  pub delete-IsShaped :
      (t : HashTable K V) (k : K) → IsShaped t → IsShaped (delete_hash_entry t k).1
  unfolding delete_hash_entry
  delete-IsShaped t k s =
      let i = home t.number_of_buckets k in delete_from-IsShaped t i k (t.buckets i) refl s

  clear_old-IsShaped :
      (t : HashTable K V) (k : K) (o : Option V) → IsShaped t → IsShaped (clear_old t k o)
  unfolding clear_old
  clear_old-IsShaped t k none s = s
  clear_old-IsShaped t k (some v) s = delete-IsShaped t k s

  -- `ensure_bucket` may leave an empty bucket, which `push_front` fills.
  push_ensured-IsShaped :
      (t : HashTable K V) (i : ℕ) (k : K) (v : V)
      → IsShaped t
      → IsShaped (push_front (ensure_bucket t i) i k v)
  unfolding push_front
  push_ensured-IsShaped t i k v s = record {
    numbering = push_front-IsIndexed (ensure_bucket t i) i k v (ensure_bucket_some t i) (record {
      indexed = ensure_bucket-indexed t i s.numbering;
      counted = ensure_bucket-counted t i s.numbering;
    });
    filled = λ j. ground (arith, s.filled j, ensure_bucket-other t i j);
  }

  pub insert-IsShaped :
      (t : HashTable K V) (k : K) (v : V) → IsShaped t → IsShaped (insert_hash_entry t k v).1
  unfolding insert_hash_entry
  insert-IsShaped t k v s =
      let o = lookup_hash_entry t k in
      push_ensured-IsShaped (clear_old t k o) (home t.number_of_buckets k) k v
        (clear_old-IsShaped t k o s)
