-- ===== src/HashTable/Walk.antt =====
-- Walks over a table of src/lib/hash_table.c visit every entry once: the iterator, `foreach_hash`
-- and `delete_hash`.
use trema.Base.{
  ℕ, zero, suc, ◌+◌, ◌≤◌, ◌<◌, ◌≡◌, ◌∙◌, refl, ap, Option, none, some, List, [], ◌∷◌, ◌++◌, ◌==◌,
  arith, if◌then◌else◌, length, length-append, update,
}
use trema.HashTable.{HashTable, entries_of, delete_bucket}
use trema.HashTable.Bucket.{EntryList}
use trema.HashTable.Index.{total, occurrences}
use trema.HashTable.Iterate.{
  init_hash_iterator, iterate_all, foreach_bucket, foreach_hash, drop_bucket, delete_index, init_at,
  foreach_index,
}

module _ {ℓ} {K V : Type ℓ} where
  -- all entries, in the order of a walk
  unfoldable pub entries_in : (ℕ → Option (EntryList K V)) → List ℕ → List (K × V)
  entries_in b [] = []
  entries_in b (i ∷ js) = entries_of (b i) ++ entries_in b js

  unfoldable pub all_entries : HashTable K V → List (K × V)
  unfolding entries_in
  all_entries t = entries_in t.buckets t.nonempty_bucket_index

  length-entries_in :
      (b : ℕ → Option (EntryList K V)) (js : List ℕ) → length (entries_in b js) ≡ total b js
  unfolding entries_in total
  length-entries_in b [] = refl
  length-entries_in b (i ∷ js) =
      omega (arith, length-append (entries_of (b i)) (entries_in b js), length-entries_in b js)

  iterate-advance :
      (fuel : ℕ) (b : ℕ → Option (EntryList K V)) (i : ℕ) (c : EntryList K V) (js : List ℕ)
      → length c + length (entries_in b js) < fuel
      → iterate_all fuel
          (record { buckets = b; bucket_index = some i; next_bucket_index = js; element = c })
        ≡ some (c ++ entries_in b js)
  unfolding iterate_all entries_in
  iterate-advance zero b i c js h = absurd (omega arith)
  iterate-advance (suc fuel) b i (e ∷ c) js h = rw (iterate-advance fuel b i c js (omega arith))
  iterate-advance (suc fuel) b i [] [] h = refl
  iterate-advance (suc fuel) b i [] (j ∷ js) h =
      iterate-advance (suc fuel) b j (entries_of (b j)) js
        (omega (arith, length-append (entries_of (b j)) (entries_in b js)))

  iterate-init :
      (fuel : ℕ) (b : ℕ → Option (EntryList K V)) (js : List ℕ)
      → length (entries_in b js) < fuel
      → iterate_all fuel (init_at b js) ≡ some (entries_in b js)
  unfolding iterate_all init_at entries_in
  iterate-init zero b js h = absurd (omega arith)
  iterate-init (suc fuel) b [] h = refl
  iterate-init (suc fuel) b (i ∷ js) h =
      iterate-advance (suc fuel) b i (entries_of (b i)) js
        (omega (arith, length-append (entries_of (b i)) (entries_in b js)))

  -- The `while` loop over an iterator ends within one round more than the table has entries, and
  -- its body is given the entries of the table.
  pub iterate_all_entries :
      (t : HashTable K V) (fuel : ℕ)
      → length (all_entries t) < fuel
      → iterate_all fuel (init_hash_iterator t) ≡ some (all_entries t)
  unfolding init_hash_iterator all_entries
  iterate_all_entries t fuel h = iterate-init fuel t.buckets t.nonempty_bucket_index h

  foreach_bucket-append {κ} :
      {S : Type κ} (c d : EntryList K V) (f : K → V → S → S) (s : S)
      → foreach_bucket (c ++ d) f s ≡ foreach_bucket d f (foreach_bucket c f s)
  unfolding foreach_bucket
  foreach_bucket-append [] d f s = refl
  foreach_bucket-append (e ∷ c) d f s = foreach_bucket-append c d f (f e.0 e.1 s)

  foreach_index-entries {κ} :
      {S : Type κ} (b : ℕ → Option (EntryList K V)) (js : List ℕ) (f : K → V → S → S) (s : S)
      → foreach_index b js f s ≡ foreach_bucket (entries_in b js) f s
  unfolding foreach_index entries_in foreach_bucket
  foreach_index-entries b [] f s = refl
  foreach_index-entries b (i ∷ js) f s =
      rw (foreach_bucket-append (entries_of (b i)) (entries_in b js) f s)
        (foreach_index-entries b js f (foreach_bucket (entries_of (b i)) f s))

  -- `foreach_hash` calls the function on the same entries, in the same order.
  pub foreach-entries {κ} :
      {S : Type κ} (t : HashTable K V) (f : K → V → S → S) (s : S)
      → foreach_hash t f s ≡ foreach_bucket (all_entries t) f s
  unfolding foreach_hash all_entries
  foreach-entries t f s = foreach_index-entries t.buckets t.nonempty_bucket_index f s

  entries_in-update :
      (b : ℕ → Option (EntryList K V)) (i : ℕ) (c : Option (EntryList K V)) (js : List ℕ)
      → occurrences i js ≡ 0
      → entries_in (update b i c) js ≡ entries_in b js
  unfolding entries_in occurrences
  entries_in-update b i c [] h = refl
  entries_in-update b i c (j ∷ js) h = ground (arith, entries_in-update b i c js)

  drop_bucket-entries :
      (t : HashTable K V) (i : ℕ) (b : Option (EntryList K V)) (js : List ℕ)
      → occurrences i js ≡ 0
      → entries_in (drop_bucket t i b).buckets js ≡ entries_in t.buckets js
  unfolding drop_bucket delete_bucket
  drop_bucket-entries t i none js h = refl
  drop_bucket-entries t i (some c) js h = entries_in-update t.buckets i none js h

  pub delete_index-entries :
      (js : List ℕ) (t : HashTable K V)
      → ((j : ℕ) → occurrences j js ≤ 1)
      → (delete_index js t).0 ≡ entries_in t.buckets js
  unfolding delete_index entries_in occurrences
  delete_index-entries [] t once = refl
  delete_index-entries (i ∷ js) t once =
      ap (λ r. entries_of (t.buckets i) ++ r)
        (delete_index-entries js (drop_bucket t i (t.buckets i)) (λ j. omega (arith, once j))
          ∙ drop_bucket-entries t i (t.buckets i) js (ground (arith, once i)))

  drop_bucket-none :
      (t : HashTable K V) (i : ℕ) (b : Option (EntryList K V)) (j : ℕ)
      → b ≡ t.buckets i
      → (drop_bucket t i b).buckets j ≡ (if j == i then none else t.buckets j)
  unfolding drop_bucket delete_bucket
  drop_bucket-none t i none j h = ground arith
  drop_bucket-none t i (some c) j h = refl

  pub delete_index-none :
      (js : List ℕ) (t : HashTable K V) (j : ℕ)
      → (occurrences j js ≡ 0 → t.buckets j ≡ none)
      → (delete_index js t).1.buckets j ≡ none
  unfolding delete_index occurrences
  delete_index-none [] t j h = h refl
  delete_index-none (i ∷ js) t j h =
      delete_index-none js (drop_bucket t i (t.buckets i)) j
        (λ z. ground (arith, drop_bucket-none t i (t.buckets i) j, h))
