-- ===== src/MatchTable/Lifetime.antt =====
-- src/lib/match_table.c: `init_match_table` makes well formed tables, and `finalize_match_table`
-- frees every entry that they lead to.
use trema.Base.{
  ℕ, ◌≡◌, ◌∙◌, refl, sym, ap, true, false, none, some, List, [], ◌∷◌, ==_refl, arith, All,
  Bool-cases, inl, inr,
}
use trema.HashTable.{lookup_hash_entry, create_hash, default_hash_size}
use trema.HashTable.Bucket.{EntryList, find}
use trema.HashTable.Iterate.{foreach_bucket}
use trema.HashTable.Laws.{create-IsValid, lookup-create}
use trema.HashTable.Visits.{entries-lookup}
use trema.HashTable.Walk.{all_entries, foreach-entries}
use trema.LinkedList.{iterate_list}
use trema.Match.Strict.{match_key, is_key}
use trema.MatchTable.{MatchTable, free_match_entry}
use trema.MatchTable.Invariant.{IsValid, Stores}
use trema.MatchTable.Operations.{
  empty_match_table, init_match_table, finalize_exact_match_table, finalize_wildcards_match_table,
  finalize_match_table,
}
use trema.OpenFlow.{Match}

nothing_stored :
    (q : Match) (a : ℕ)
    → lookup_hash_entry empty_match_table.exact_table q ≡ some a
    → Stores empty_match_table q a
unfolding create_hash
nothing_stored q a e =
    let no : none ≡ some a = sym (lookup-create default_hash_size q) ∙ e in
    absurd (ground (arith, no))

free_keeps : (a b : ℕ) (t : MatchTable) → t.live a ≡ false → (free_match_entry t b).live a ≡ false
unfolding free_match_entry
free_keeps a b t h = ground arith

free_self : (a : ℕ) (t : MatchTable) → (free_match_entry t a).live a ≡ false
unfolding free_match_entry
free_self a t = rw (==_refl a)

list_keeps :
    (xs : List ℕ) (a : ℕ) (t : MatchTable)
    → t.live a ≡ false
    → (iterate_list xs (λ b u. free_match_entry u b) t).live a ≡ false
unfolding iterate_list
list_keeps [] a t h = h
list_keeps (b ∷ xs) a t h = list_keeps xs a (free_match_entry t b) (free_keeps a b t h)

-- A walk that frees leaves no address of the list allocated.
list_frees :
    (xs : List ℕ) (t : MatchTable)
    → All (λ a. (iterate_list xs (λ b u. free_match_entry u b) t).live a ≡ false) xs
unfolding iterate_list
list_frees [] t = tt
list_frees (a ∷ xs) t =
    (list_keeps xs a (free_match_entry t a) (free_self a t), list_frees xs (free_match_entry t a))

frees_same :
    (xs ys : List ℕ) (t : MatchTable)
    → ys ≡ xs
    → All (λ a. (iterate_list ys (λ b u. free_match_entry u b) t).live a ≡ false) xs
frees_same xs ys t e = rw e (list_frees xs t)

walk_keeps :
    (c : EntryList Match ℕ) (a : ℕ) (t : MatchTable)
    → t.live a ≡ false
    → (foreach_bucket c (λ k b u. free_match_entry u b) t).live a ≡ false
unfolding foreach_bucket
walk_keeps [] a t h = h
walk_keeps (e ∷ c) a t h = walk_keeps c a (free_match_entry t e.1) (free_keeps a e.1 t h)

walk_frees :
    (c : EntryList Match ℕ) (q : Match) (a : ℕ) (t : MatchTable)
    → find q c ≡ some a
    → (foreach_bucket c (λ k b u. free_match_entry u b) t).live a ≡ false
unfolding foreach_bucket find
walk_frees [] q a t h = ground arith
walk_frees (e ∷ c) q a t h = elim (Bool-cases (match_key.compare q e.0)) [
  | inl y ↦
      let ea : e.1 ≡ a = ground arith in
      walk_keeps c a (free_match_entry t e.1)
        (ap (λ b. (free_match_entry t b).live a) ea ∙ free_self a t)
  | inr y ↦ walk_frees c q a (free_match_entry t e.1) (ground arith)
]

walk_list :
    (c : EntryList Match ℕ) (t : MatchTable)
    → (foreach_bucket c (λ k b u. free_match_entry u b) t).wildcards_table ≡ t.wildcards_table
unfolding foreach_bucket free_match_entry
walk_list [] t = refl
walk_list (e ∷ c) t = walk_list c (free_match_entry t e.1)

module _ (t : MatchTable) (valid : IsValid t) where
  exact_frees :
      (q : Match) (a : ℕ)
      → is_key q ≡ true
      → lookup_hash_entry t.exact_table q ≡ some a
      → (finalize_exact_match_table t).live a ≡ false
  unfolding finalize_exact_match_table
  exact_frees q a kq e =
      ap (λ (u : MatchTable). u.live a)
        (foreach-entries t.exact_table (λ k b u. free_match_entry u b) t)
      ∙ walk_frees (all_entries t.exact_table) q a t
          ((entries-lookup t.exact_table valid.hashed q kq).0 ∙ e)

  exact_list : (finalize_exact_match_table t).wildcards_table ≡ t.wildcards_table
  unfolding finalize_exact_match_table
  exact_list =
      ap (λ (u : MatchTable). u.wildcards_table)
        (foreach-entries t.exact_table (λ k b u. free_match_entry u b) t)
      ∙ walk_list (all_entries t.exact_table) t

  -- On well formed tables `finalize_match_table` frees the entry of every legal key of the exact
  -- table, and every entry of the list of wildcard entries.
  pub finalize_match_table-frees :
      ((q : Match) (a : ℕ)
        → is_key q ≡ true
        → lookup_hash_entry t.exact_table q ≡ some a
        → (finalize_match_table t).live a ≡ false)
      × All (λ a. (finalize_match_table t).live a ≡ false) t.wildcards_table
  unfolding finalize_match_table finalize_wildcards_match_table
  finalize_match_table-frees =
      let u = finalize_exact_match_table t in
      (
        λ q a kq e. list_keeps u.wildcards_table a u (exact_frees q a kq e),
        frees_same t.wildcards_table u.wildcards_table u exact_list,
      )

-- `init_match_table` returns, and makes well formed tables.
pub init_match_table-IsValid : (t : MatchTable) × (init_match_table none ≡ some t) × IsValid t
unfolding init_match_table create_hash
init_match_table-IsValid = (
  empty_match_table,
  refl,
  record {
    hashed = create-IsValid default_hash_size (omega arith);
    keyed = λ q a l e. nothing_stored q a e;
    listed = tt;
    distinct = tt;
    sorted = tt;
    unique = tt;
  },
)
