-- ===== src/HashTable/Index.antt =====
-- The list of the nonempty buckets of src/lib/hash_table.c: how often it names a bucket, and how
-- many entries stand in the buckets that it names.
use trema.Base.{
  ◌<◌, ℕ, ◌+◌, ◌-◌, ◌≡◌, refl, Option, List, [], ◌∷◌, ◌==◌, arith, if◌then◌else◌, length, update,
}
use trema.HashTable.{entries_of, remove_index}
use trema.HashTable.Bucket.{EntryList, as_number}

unfoldable pub occurrences : ℕ → List ℕ → ℕ
occurrences i [] = 0
occurrences i (j ∷ js) = as_number (j == i) + occurrences i js

pub occurrences-remove_index :
    (i j : ℕ) (js : List ℕ)
    → occurrences j (remove_index i js)
      ≡ (if i == j then occurrences j js - 1 else occurrences j js)
unfolding occurrences remove_index
occurrences-remove_index i j [] = ground arith
occurrences-remove_index i j (h ∷ js) = ground (arith, occurrences-remove_index i j js)

module _ {ℓ} {K V : Type ℓ} where
  unfoldable pub total : (ℕ → Option (EntryList K V)) → List ℕ → ℕ
  total f [] = 0
  total f (j ∷ js) = length (entries_of (f j)) + total f js

  pub total-remove_index :
      (f : ℕ → Option (EntryList K V)) (i : ℕ) (js : List ℕ)
      → 0 < occurrences i js
      → total f (remove_index i js) + length (entries_of (f i)) ≡ total f js
  unfolding total remove_index occurrences
  total-remove_index f i [] h = ground arith
  total-remove_index f i (j ∷ js) h = ground (arith, total-remove_index f i js)

  pub total-update_absent :
      (f : ℕ → Option (EntryList K V)) (i : ℕ) (c : Option (EntryList K V)) (js : List ℕ)
      → occurrences i js ≡ 0
      → total (update f i c) js ≡ total f js
  unfolding total occurrences
  total-update_absent f i c [] h = refl
  total-update_absent f i c (j ∷ js) h = ground (arith, total-update_absent f i c js)

  pub total-update :
      (f : ℕ → Option (EntryList K V)) (i : ℕ) (c : Option (EntryList K V)) (js : List ℕ)
      → occurrences i js ≡ 1
      → total (update f i c) js + length (entries_of (f i)) ≡ total f js + length (entries_of c)
  unfolding total occurrences
  total-update f i c [] h = ground arith
  total-update f i c (j ∷ js) h =
      ground (arith, total-update f i c js, total-update_absent f i c js)
