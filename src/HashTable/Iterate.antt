-- ===== src/HashTable/Iterate.antt =====
-- src/lib/hash_table.c: the iterator, `foreach_hash` and `delete_hash`. The index list is walked
-- from the front, and each bucket from the element behind its head.
use trema.Base.{ℕ, zero, suc, Option, none, some, List, [], ◌∷◌, ◌++◌}
use trema.HashTable.{HashTable, entries_of, delete_bucket}
use trema.HashTable.Bucket.{EntryList}

-- `next_bucket_index` and the elements behind it are a list; `element` and those behind it too.
pub record HashIterator {ℓ} (K V : Type ℓ) : Type ℓ where
  pub buckets : ℕ → Option (EntryList K V)
  pub bucket_index : Option ℕ
  pub next_bucket_index : List ℕ
  pub element : EntryList K V

module _ {ℓ} {K V : Type ℓ} where
  unfoldable pub init_at : (ℕ → Option (EntryList K V)) → List ℕ → HashIterator K V
  init_at b [] = record { buckets = b; bucket_index = none; next_bucket_index = []; element = [] }
  init_at b (i ∷ js) = record {
    buckets = b;
    bucket_index = some i;
    next_bucket_index = js;
    element = entries_of (b i);
  }

  unfoldable pub init_hash_iterator : HashTable K V → HashIterator K V
  unfolding init_at
  init_hash_iterator t = init_at t.buckets t.nonempty_bucket_index

  -- the loop of `iterate_hash_next`, at bucket `i` with `element` and `next_bucket_index`
  unfoldable pub advance :
      (ℕ → Option (EntryList K V)) → ℕ → EntryList K V → List ℕ → Option (K × V) × HashIterator K V
  advance b i (e ∷ c) js =
      (some e, record { buckets = b; bucket_index = some i; next_bucket_index = js; element = c })
  advance b i [] [] =
      (none, record { buckets = b; bucket_index = some i; next_bucket_index = []; element = [] })
  advance b i [] (j ∷ js) = advance b j (entries_of (b j)) js

  next_from : HashIterator K V → Option ℕ → Option (K × V) × HashIterator K V
  next_from it none = (none, it)
  next_from it (some i) = advance it.buckets i it.element it.next_bucket_index

  unfoldable pub iterate_hash_next : HashIterator K V → Option (K × V) × HashIterator K V
  unfolding advance next_from
  iterate_hash_next it = next_from it it.bucket_index

  -- `while ( ( e = iterate_hash_next( &iter ) ) != NULL )`, with the entries that the body is
  -- given; `none` when the fuel does not suffice
  unfoldable pub iterate_all : ℕ → HashIterator K V → Option (List (K × V))
  unfolding iterate_hash_next
  iterate_all zero it = none
  iterate_all (suc fuel) it =
      let step = iterate_hash_next it in
      elim step.0 [
        | none ↦ some []
        | some e ↦ elim (iterate_all fuel step.1) [ none ↦ none | some es ↦ some (e ∷ es) ]
      ]

  unfoldable pub foreach_bucket {κ} : {S : Type κ} → EntryList K V → (K → V → S → S) → S → S
  foreach_bucket [] function s = s
  foreach_bucket (e ∷ c) function s = foreach_bucket c function (function e.0 e.1 s)

  unfoldable pub foreach_index {κ} :
      {S : Type κ} → (ℕ → Option (EntryList K V)) → List ℕ → (K → V → S → S) → S → S
  foreach_index b [] function s = s
  foreach_index b (i ∷ js) function s =
      foreach_index b js function (foreach_bucket (entries_of (b i)) function s)

  -- `foreach_hash`, for a function that leaves the table as it is; a NULL bucket is passed over
  unfoldable pub foreach_hash {κ} : {S : Type κ} → HashTable K V → (K → V → S → S) → S → S
  unfolding foreach_bucket foreach_index
  foreach_hash t function s = foreach_index t.buckets t.nonempty_bucket_index function s

  -- A NULL bucket is passed over.
  unfoldable pub drop_bucket : HashTable K V → ℕ → Option (EntryList K V) → HashTable K V
  drop_bucket t i none = t
  drop_bucket t i (some c) = delete_bucket t i

  -- The walk of `delete_hash` takes its bucket numbers from the list, which `delete_bucket`
  -- shortens behind it. The first result holds the entries that are freed, in order.
  unfoldable pub delete_index : List ℕ → HashTable K V → List (K × V) × HashTable K V
  delete_index [] t = ([], t)
  delete_index (i ∷ js) t =
      let rest = delete_index js (drop_bucket t i (t.buckets i)) in
      (entries_of (t.buckets i) ++ rest.0, rest.1)

  unfoldable pub delete_hash : HashTable K V → List (K × V) × HashTable K V
  unfolding delete_bucket drop_bucket delete_index
  delete_hash t = delete_index t.nonempty_bucket_index t
