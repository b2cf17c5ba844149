-- ===== src/MatchTable/Delete.antt =====
-- src/lib/match_table.c: `delete_match_strict_entry` against the strict search.
use trema.Base.{
  ℕ, ◌≡◌, ◌∙◌, refl, sym, Bool, true, false, none, some, List, [], ◌∷◌, ◌==◌, if◌then◌else◌, arith,
  ==_refl, Bool-cases, inl, inr,
}
use trema.HashTable.{delete_hash_entry}
use trema.Match.{exact_match}
use trema.Match.Strict.{match_key, IsShort}
use trema.MatchTable.{
  MatchTable, free_match_entry, delete_exact_found, delete_exact_match_strict_entry,
}
use trema.MatchTable.Invariant.{Listed, IsValid}
use trema.MatchTable.Preserve.{unlink_exact-IsValid, is_key_of}
use trema.MatchTable.Rules.{is_rule, find-All, without}
use trema.MatchTable.Wildcards.{
  lookup_wildcards_match_strict_entry, delete_wildcards_list, delete_wildcards_found,
  delete_wildcards_match_strict_entry,
}
use trema.OpenFlow.{Match}
use trema.LinkedList.{find_from, delete_next, delete_element}
use trema.MatchTable.Operations.{strict_entry}
use trema.MatchTable.Find.{same_rule, exact_entry, wild_search, wild_entry}
use trema.MatchTable.Enlist.{unlink_list-IsValid}
use trema.MatchTable.Operations.{lookup_match_strict_entry}
use trema.LinkedList.Laws.{delete_element-next}
use trema.MatchTable.Find.{strict_entry-unlink, strict_entry-unlist}
use trema.MatchTable.Operations.{delete_match_strict_entry}
use trema.MatchTable.Change.{removed-lookup}

module _ (t : MatchTable) (m : Match) (p : ℕ) where
  -- For a rule that the strict search does not find, `delete_match_strict_entry` returns NULL and
  -- leaves the tables as they are.
  pub delete_match_entry-missing :
      strict_entry t m p ≡ none → delete_match_strict_entry t m p ≡ some (0, t)
  unfolding delete_match_strict_entry delete_exact_match_strict_entry delete_exact_found
      delete_wildcards_match_strict_entry delete_wildcards_found lookup_wildcards_match_strict_entry
  delete_match_entry-missing e = elim (Bool-cases (exact_match m)) [
    | inl x ↦ rw (x, sym (exact_entry t m p x) ∙ e)
    | inr x ↦ rw (x, sym (wild_search t m p x) ∙ e)
  ]

-- A call that takes the rule `m` at `p` out, whose entry is `a`: it returns the entry's data, frees
-- the entry, the tables stay well formed, and a strict lookup misses the rule and finds what it
-- found before for every other one.
abbrev pub Removes : (t : MatchTable) → Match → ℕ → ℕ → MatchTable → Type 0
Removes t m p a u =
    (delete_match_strict_entry t m p ≡ some ((t.entries a).entry_data, u))
    × (u.live a ≡ false)
    × IsValid u
    × ((q : Match) (r : ℕ)
        → IsShort q
        → lookup_match_strict_entry u q r
          ≡ (if same_rule q r m p then 0 else lookup_match_strict_entry t q r))

free-live : (t : MatchTable) (a : ℕ) → (free_match_entry t a).live a ≡ false
unfolding free_match_entry
free-live t a = rw (==_refl a)

free-entries : (t : MatchTable) (a : ℕ) → (free_match_entry t a).entries ≡ t.entries
unfolding free_match_entry
free-entries t a = refl

delete_found-list :
    (f : ℕ → Bool) (xs : List ℕ) (a : ℕ)
    → find_from f xs ≡ some a
    → delete_element (λ x y. x == y) xs a ≡ some (delete_next (λ x y. x == y) xs a)
unfolding find_from
delete_found-list f [] a e = ground arith
delete_found-list f (x ∷ xs) a e = delete_element-next (λ x y. x == y) x xs a

module _ (t : MatchTable) (valid : IsValid t) (m : Match) (p a : ℕ) (short : IsShort m)
    (found : strict_entry t m p ≡ some a) where
  delete_exact : exact_match m ≡ true → (u : MatchTable) × Removes t m p a u
  unfolding delete_match_strict_entry delete_exact_match_strict_entry delete_exact_found
  delete_exact x =
      let km = is_key_of m x short in
      let e = sym (exact_entry t m p x) ∙ found in
      let v = record t { exact_table = (delete_hash_entry t.exact_table m).1 } in
      (
        free_match_entry v a,
        (
          rw (x, e),
          free-live v a,
          unlink_exact-IsValid t valid m km a e,
          λ q r sq.
              removed-lookup t valid m p a short found (free_match_entry v a) (free-entries v a) q r
                sq (strict_entry-unlink t valid m p q r a km x sq),
        ),
      )

  delete_wild : exact_match m ≡ false → (u : MatchTable) × Removes t m p a u
  unfolding delete_match_strict_entry delete_wildcards_match_strict_entry delete_wildcards_found
      delete_wildcards_list lookup_wildcards_match_strict_entry
  delete_wild x =
      let xs = t.wildcards_table in
      let e = sym (wild_entry t valid m p x) ∙ found in
      let v = record t { wildcards_table = without a xs } in
      let la = find-All (Listed t) (is_rule t.entries m p) xs a valid.listed e in
      let vv = unlink_list-IsValid t valid a la in
      (
        free_match_entry v a,
        (
          rw (
            x,
            sym (wild_search t m p x) ∙ found,
            delete_found-list (is_rule t.entries m p) xs a e,
          ),
          free-live v a,
          vv,
          λ q r sq.
              removed-lookup t valid m p a short found (free_match_entry v a) (free-entries v a) q r
                sq (strict_entry-unlist t valid m p q r a vv x e),
        ),
      )

  -- In well formed tables, for a rule that the strict search leads to an entry,
  -- `delete_match_strict_entry` returns the entry's data and frees the entry, the tables stay well
  -- formed, and a strict lookup misses the rule and finds what it found before for every other one.
  -- Addresses are numbers of 32 bits.
  pub delete_match_entry-Removes : (u : MatchTable) × Removes t m p a u
  delete_match_entry-Removes = elim (Bool-cases (exact_match m)) [
    | inl x ↦ delete_exact x
    | inr x ↦ delete_wild x
  ]
