-- ===== src/MatchTable/Priority.antt =====
-- src/lib/match_table.c: `lookup_match_entry` finds the exact entry, or else a wildcard entry of
-- the highest priority.
use trema.Base.{
  ℕ, ◌≤◌, ◌≡◌, ◌∙◌, refl, sym, ap, true, false, none, some, List, [], ◌∷◌, arith, All, Bool-cases,
  Option-cases, inl, inr, ◌⊎◌,
}
use trema.HashTable.{lookup_hash_entry}
use trema.Match.{compare_match}
use trema.Match.Strict.{match_key}
use trema.MatchTable.{MatchEntry, MatchTable, lookup_exact_match_strict_entry, data_of}
use trema.MatchTable.Invariant.{Listed, IsValid}
use trema.MatchTable.Ordered.{Below, Sorted}
use trema.MatchTable.Rules.{All-map, find-All}
use trema.OpenFlow.{Match}
use trema.LinkedList.{find_from}
use trema.MatchTable.Wildcards.{first_match, lookup_wildcards_match_entry}
use trema.MatchTable.Operations.{or_wildcards, lookup_match_entry}

module _ (h : ℕ → MatchEntry) (q : Match) where
  -- a wildcard entry that matches, with no matching entry above its priority
  abbrev pub Highest : List ℕ → ℕ → Type 0
  Highest xs a =
      (compare_match (h a).match q ≡ true)
      × All (λ b. compare_match (h b).match q ≡ true → (h b).priority ≤ (h a).priority) xs

  pub first_match-none :
      (xs : List ℕ) → first_match h xs q ≡ none → All (λ b. compare_match (h b).match q ≡ false) xs
  unfolding first_match
  first_match-none [] e = tt
  first_match-none (a ∷ xs) e = ground (arith, first_match-none xs)

  first_match-Below :
      (p : ℕ) (xs : List ℕ) (a : ℕ)
      → Below h p xs
      → first_match h xs q ≡ some a
      → (h a).priority ≤ p
  unfolding first_match
  first_match-Below p [] a low e = ground arith
  first_match-Below p (b ∷ xs) a low e = ground (arith, first_match-Below p xs a low.1, low.0)

  pub first_match-Highest :
      (xs : List ℕ) (a : ℕ) → Sorted h xs → first_match h xs q ≡ some a → Highest xs a
  unfolding first_match
  first_match-Highest [] a s e = ground arith
  first_match-Highest (b ∷ xs) a s e = elim (Bool-cases (compare_match (h b).match q)) [
    | inl y ↦
        let ab : b ≡ a = ground arith in
        let same = ap (λ x. (h x).priority) ab in
        (
          ap (λ x. compare_match (h x).match q) (sym ab) ∙ y,
          ((λ _. omega (arith, same)), All-map xs (λ c l _. omega (arith, same, l)) s.0),
        )
    | inr y ↦
        let rest : first_match h xs q ≡ some a = ground arith in
        let ih = first_match-Highest xs a s.1 rest in (ih.0, ((λ z. absurd (ground arith)), ih.1))
  ]

  first_match-find :
      (xs : List ℕ) → first_match h xs q ≡ find_from (λ a. compare_match (h a).match q) xs
  unfolding first_match find_from
  first_match-find [] = refl
  first_match-find (a ∷ xs) = ground (arith, first_match-find xs)

module _ (t : MatchTable) (valid : IsValid t) (q : Match) where
  lookup_match_entry-list :
      lookup_hash_entry t.exact_table q ≡ none
      → lookup_match_entry t q ≡ data_of t (first_match t.entries t.wildcards_table q)
  unfolding lookup_match_entry or_wildcards lookup_exact_match_strict_entry
      lookup_wildcards_match_entry
  lookup_match_entry-list e = rw e

  -- In well formed tables, when the exact table has no entry for the packet's match,
  -- `lookup_match_entry` returns the data of a wildcard entry that matches and that no matching
  -- entry is above in priority, or NULL when no entry of the list matches.
  pub lookup_match_entry-Highest :
      lookup_hash_entry t.exact_table q ≡ none
      → ((lookup_match_entry t q ≡ 0)
          × All (λ b. compare_match (t.entries b).match q ≡ false) t.wildcards_table)
        ⊎ ((a : ℕ) × (lookup_match_entry t q ≡ (t.entries a).entry_data)
            × (t.live a ≡ true)
            × Highest t.entries q t.wildcards_table a)
  unfolding data_of
  lookup_match_entry-Highest e =
      let xs = t.wildcards_table in
      let f = λ (a : ℕ). compare_match (t.entries a).match q in
      elim (Option-cases (first_match t.entries xs q)) [
        | inl y ↦
            inl (lookup_match_entry-list e ∙ ap (data_of t) y, first_match-none t.entries q xs y)
        | inr (a, y) ↦ inr (
          a,
          lookup_match_entry-list e ∙ ap (data_of t) y,
          (find-All (Listed t) f xs a valid.listed (sym (first_match-find t.entries q xs) ∙ y)).0,
          first_match-Highest t.entries q xs a valid.sorted y,
        )
      ]

  -- When the exact table has an entry for the packet's match, `lookup_match_entry` returns its
  -- data.
  pub lookup_match_entry-exact :
      (a : ℕ)
      → lookup_hash_entry t.exact_table q ≡ some a
      → lookup_match_entry t q ≡ (t.entries a).entry_data
  unfolding lookup_match_entry or_wildcards data_of lookup_exact_match_strict_entry
  lookup_match_entry-exact a e = rw e
