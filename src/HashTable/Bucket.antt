-- ===== src/HashTable/Bucket.antt =====
-- One bucket of src/lib/hash_table.c: the loops over `element->next`.
use trema.Base.{
  ℕ, ◌+◌, ◌≤◌, ◌≡◌, refl, Bool, true, false, Option, none, some, List, [], ◌∷◌, ◌++◌, arith,
  if◌then◌else◌, length, All,
}
use trema.TableKey.{Key, compare_congr_left, compare_congr_right}

abbrev pub EntryList {ℓ} : Type ℓ → Type ℓ → Type ℓ
EntryList K V = List (K × V)

abbrev pub as_number : Bool → ℕ
as_number true = 1
as_number false = 0

module _ {ℓ} {K V : Type ℓ} ⦃key : Key K⦄ where
  -- `delete_dlist_element` on that entry
  unfoldable pub remove : K → EntryList K V → EntryList K V
  remove k [] = []
  remove k (e ∷ c) = if key.compare k e.0 then c else e ∷ remove k c

  -- the value of the first entry whose key compares equal
  unfoldable pub find : K → EntryList K V → Option V
  find k [] = none
  find k (e ∷ c) = if key.compare k e.0 then some e.1 else find k c

  -- how many entries have a key that compares equal
  unfoldable pub multiplicity : K → EntryList K V → ℕ
  multiplicity k [] = 0
  multiplicity k (e ∷ c) = as_number (key.compare k e.0) + multiplicity k c

  pub find-eq-none : (q : K) (c : EntryList K V) → multiplicity q c ≡ 0 → find q c ≡ none
  unfolding find multiplicity
  find-eq-none q [] h = refl
  find-eq-none q (e ∷ c) h = ground (arith, find-eq-none q c)

  pub multiplicity-eq-zero :
      (k q : K) (c : EntryList K V)
      → find k c ≡ none
      → key.compare q k ≡ true
      → multiplicity q c ≡ 0
  unfolding find multiplicity
  multiplicity-eq-zero k q [] h same = refl
  multiplicity-eq-zero k q (e ∷ c) h same =
      ground (arith, multiplicity-eq-zero k q c, compare_congr_left q k e.0)

  pub remove_absent : (k : K) (c : EntryList K V) → find k c ≡ none → remove k c ≡ c
  unfolding find remove
  remove_absent k [] h = refl
  remove_absent k (e ∷ c) h = ground (arith, remove_absent k c)

  module _ (k q : K) where
    pub find-remove :
        (c : EntryList K V)
        → multiplicity q c ≤ 1
        → find q (remove k c) ≡ (if key.compare q k then none else find q c)
    unfolding find remove multiplicity
    find-remove [] h = ground arith
    find-remove (e ∷ c) h = ground (
      arith,
      find-remove c,
      find-eq-none q c,
      compare_congr_left q k e.0,
      compare_congr_right q k e.0,
    )

    pub multiplicity-remove-le :
        (c : EntryList K V) → multiplicity q (remove k c) ≤ multiplicity q c
    unfolding remove multiplicity
    multiplicity-remove-le [] = omega arith
    multiplicity-remove-le (e ∷ c) = ground (arith, multiplicity-remove-le c)

  pub length-remove :
      (k : K) (v : V) (c : EntryList K V) → find k c ≡ some v → length c ≡ length (remove k c) + 1
  unfolding find remove
  length-remove k v [] h = ground arith
  length-remove k v (e ∷ c) h = ground (arith, length-remove k v c)

  -- A property of all entries survives the removal of one.
  pub All-remove {κ} :
      (P : K × V → Type κ) (k : K) (c : EntryList K V) → All P c → All P (remove k c)
  unfolding remove
  All-remove P k [] h = h
  All-remove P k (e ∷ c) h = ground (arith, All-remove P k c h.1)

  pub multiplicity-append :
      (q : K) (c d : EntryList K V) → multiplicity q (c ++ d) ≡ multiplicity q c + multiplicity q d
  unfolding multiplicity
  multiplicity-append q [] d = omega arith
  multiplicity-append q (e ∷ c) d = omega (arith, multiplicity-append q c d)

  -- The first list decides when it holds the key.
  pub find-append_absent :
      (q : K) (c d : EntryList K V) → multiplicity q c ≡ 0 → find q (c ++ d) ≡ find q d
  unfolding find multiplicity
  find-append_absent q [] d h = refl
  find-append_absent q (e ∷ c) d h = ground (arith, find-append_absent q c d)

  pub find-append_last :
      (q : K) (c d : EntryList K V) → multiplicity q d ≡ 0 → find q (c ++ d) ≡ find q c
  unfolding find multiplicity
  find-append_last q [] d h = find-eq-none q d h
  find-append_last q (e ∷ c) d h = ground (arith, find-append_last q c d h)
