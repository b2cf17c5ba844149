-- ===== src/HashTable/Visits.antt =====
-- A walk over a table of src/lib/hash_table.c meets the entries that lookups find.
use trema.Base.{
  length, ◌<◌, some, ℕ, ◌%◌, ◌≤◌, ◌≡◌, ◌∙◌, refl, sym, ap, true, none, List, [], ◌∷◌, ◌==◌, arith,
  ==_iff, Bool-cases, Option-cases, inl, inr, ◌≢◌, All, is_some,
}
use trema.HashTable.{HashTable, lookup_hash_entry}
use trema.HashTable.Bucket.{
  EntryList, find, find-eq-none, multiplicity, as_number, multiplicity-append, find-append_absent,
  find-append_last,
}
use trema.HashTable.Index.{occurrences}
use trema.HashTable.Iterate.{
  delete_hash, init_hash_iterator, iterate_all, foreach_hash, foreach_bucket,
}
use trema.HashTable.Valid.{home, bucket, IsHome, IsValid}
use trema.TableKey.{Key}
use trema.HashTable.Walk.{
  iterate_all_entries, foreach-entries, entries_in, all_entries, delete_index-entries,
  delete_index-none,
}
use trema.HashTable.Entries.{lookup-find}

module _ {ℓ} {K V : Type ℓ} ⦃key : Key K⦄ where
  -- A bucket that is not the key's own holds no entry that compares equal.
  multiplicity_away :
      (n i : ℕ) (q : K) (c : EntryList K V)
      → All (IsHome n i) c
      → key.legal q ≡ true
      → home n q ≢ i
      → multiplicity q c ≡ 0
  unfolding multiplicity
  multiplicity_away n i q [] h lq away = refl
  multiplicity_away n i q (e ∷ c) h lq away = ground (
    arith,
    multiplicity_away n i q c h.1 lq away,
    h.0,
    key.hash-compare q e.0 lq h.0.0,
    λ (p : key.hash q ≡ key.hash e.0). ap (λ m. m % n) p,
  )

  module _ (t : HashTable K V) (valid : IsValid t) (q : K) (lq : key.legal q ≡ true) where
    multiplicity_nowhere :
        (js : List ℕ)
        → occurrences (home t.number_of_buckets q) js ≡ 0
        → multiplicity q (entries_in t.buckets js) ≡ 0
    unfolding multiplicity occurrences entries_in
    multiplicity_nowhere [] h = refl
    multiplicity_nowhere (i ∷ js) h =
        let n = t.number_of_buckets in
        rw (multiplicity-append q (bucket t i) (entries_in t.buckets js)) (
          ground (
            arith,
            multiplicity_away n i q (bucket t i) (valid.placed i) lq,
            multiplicity_nowhere js,
          ))

    find_once :
        (js : List ℕ)
        → occurrences (home t.number_of_buckets q) js ≡ 1
        → (find q (entries_in t.buckets js) ≡ find q (bucket t (home t.number_of_buckets q)))
          × (multiplicity q (entries_in t.buckets js)
              ≡ multiplicity q (bucket t (home t.number_of_buckets q)))
    unfolding occurrences entries_in
    find_once [] h = absurd (omega arith)
    find_once (i ∷ js) h =
        let n = t.number_of_buckets in
        let c = bucket t i in
        let d = entries_in t.buckets js in
        elim (Bool-cases (i == home n q)) [
          | inl e ↦
              let rest = multiplicity_nowhere js (ground arith) in
              rw (multiplicity-append q c d, ← (==_iff _ _).0 e)
                (find-append_last q c d rest, omega arith)
          | inr e ↦
              let away = multiplicity_away n i q c (valid.placed i) lq (λ p. ground arith) in
              let rest = find_once js (ground arith) in
              rw (multiplicity-append q c d)
                (find-append_absent q c d away ∙ rest.0, omega (arith, rest.1))
        ]

    -- In a well formed table the buckets, in the order of the index, hold each legal key at most once,
    -- with the value that a lookup finds.
    pub entries-lookup :
        (find q (all_entries t) ≡ lookup_hash_entry t q) × (multiplicity q (all_entries t) ≤ 1)
    unfolding all_entries find
    entries-lookup =
        let h = home t.number_of_buckets q in
        let js = t.nonempty_bucket_index in
        elim (Option-cases (t.buckets h)) [
          | inl e ↦
              let nowhere =
                multiplicity_nowhere js (valid.indexed h ∙ ap (λ o. as_number (is_some o)) e) in
              (
                find-eq-none q (entries_in t.buckets js) nowhere
                    ∙ sym (lookup-find t q ∙ rw (e, find)),
                omega arith,
              )
          | inr (c, e) ↦
              let once = find_once js (valid.indexed h ∙ ap (λ o. as_number (is_some o)) e) in
              (once.0 ∙ sym (lookup-find t q), omega (arith, valid.once q h))
        ]

  -- In a well formed table, a `while` loop over the iterator ends within more rounds than the table
  -- has entries, and `foreach_hash` calls its function on the entries that the loop is given, in the
  -- same order. Among them a legal key stands at most once, and a search among them for the key
  -- finds what a lookup finds.
  pub walk-lookup {κ} :
      {S : Type κ} (t : HashTable K V) (q : K) (fuel : ℕ) (f : K → V → S → S) (s : S)
      → IsValid t
      → key.legal q ≡ true
      → length (all_entries t) < fuel
      → (entries : EntryList K V) × (iterate_all fuel (init_hash_iterator t) ≡ some entries)
        × (foreach_hash t f s ≡ foreach_bucket entries f s)
        × (find q entries ≡ lookup_hash_entry t q)
        × (multiplicity q entries ≤ 1)
  walk-lookup t q fuel f s valid lq enough =
      let (found, once) = entries-lookup t valid q lq in
      (all_entries t, iterate_all_entries t fuel enough, foreach-entries t f s, found, once)

  -- `delete_hash` of a well formed table frees every entry of the table once, and leaves no bucket.
  pub delete_hash-frees :
      (t : HashTable K V)
      → IsValid t
      → ((delete_hash t).0 ≡ all_entries t) × ((i : ℕ) → (delete_hash t).1.buckets i ≡ none)
  unfolding delete_hash all_entries
  delete_hash-frees t valid =
      let js = t.nonempty_bucket_index in
      (
        delete_index-entries js t (λ j. ground (arith, valid.indexed j)),
        λ i. delete_index-none js t i (λ z. ground (arith, valid.indexed i)),
      )
