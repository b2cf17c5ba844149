-- ===== src/MatchTable/Change.antt =====
-- src/lib/match_table.c: `update_match_entry` and `delete_match_strict_entry` against the strict
-- search.
use trema.Base.{
  ℕ, ◌≡◌, ◌∙◌, sym, ap, true, false, none, some, ◌==◌, if-true, if-false, if◌then◌else◌, arith,
  ==_refl, Bool-cases, inl, inr,
}
use trema.Match.{exact_match}
use trema.Match.Strict.{match_key, IsShort}
use trema.MatchTable.{MatchTable, set_data, update_found, update_exact_match_entry, data_of}
use trema.MatchTable.Invariant.{IsValid, keeps-IsValid, set_data-Keeps}
use trema.MatchTable.Preserve.{is_key_of, same_address}
use trema.MatchTable.Rules.{All-map, is_rule, find-true, find-congr}
use trema.MatchTable.Wildcards.{update_wildcards_match_entry}
use trema.OpenFlow.{Match}
use trema.MatchTable.Operations.{strict_entry}
use trema.MatchTable.Find.{same_rule, strict_entry-Keeps, exact_entry, wild_entry}
use trema.MatchTable.Operations.{lookup_match_strict_entry}
use trema.HashTable.Laws.{lookup_congr}
use trema.MatchTable.Find.{
  same_rule-entry, same_rule-exact, same_rule-congr, same_rule-kind, strict_entry-kind,
}
use trema.MatchTable.Insert.{data_of-same}
use trema.MatchTable.Operations.{update_match_entry}

module _ (t : MatchTable) (valid : IsValid t) (m : Match) (p : ℕ) (short : IsShort m) (q : Match)
    (r : ℕ) (shortq : IsShort q) where
  -- The same rules lead the strict search to one entry.
  same_rule-search : same_rule q r m p ≡ true → strict_entry t q r ≡ strict_entry t m p
  same_rule-search s = elim (Bool-cases (exact_match m)) [
    | inl x ↦
        let xq = same_rule-kind q r m p s ∙ x in
        exact_entry t q r xq
        ∙ lookup_congr t.exact_table q m (is_key_of q xq shortq) (is_key_of m x short)
            (sym (same_rule-exact q r m p x) ∙ s)
        ∙ sym (exact_entry t m p x)
    | inr x ↦
        wild_entry t valid q r (same_rule-kind q r m p s ∙ x)
        ∙ find-congr (is_rule t.entries q r) (is_rule t.entries m p) t.wildcards_table (
            All-map t.wildcards_table (λ b l. same_rule-congr (t.entries b) q r m p x s)
              valid.listed)
        ∙ sym (wild_entry t valid m p x)
  ]

  -- Rules that lead the strict search to one entry are the same.
  search-same_rule :
      (a : ℕ) → strict_entry t m p ≡ some a → strict_entry t q r ≡ some a → same_rule q r m p ≡ true
  search-same_rule a em eq =
      let kind =
        sym (strict_entry-kind t valid q r a shortq eq)
        ∙ strict_entry-kind t valid m p a short em in
      elim (Bool-cases (exact_match m)) [
        | inl x ↦
            let xq = kind ∙ x in
            same_rule-exact q r m p x
            ∙ same_address t valid m (is_key_of m x short) a q (is_key_of q xq shortq)
                (sym (exact_entry t m p x) ∙ em) (sym (exact_entry t q r xq) ∙ eq)
        | inr x ↦
            same_rule-entry (t.entries a) q r m p x (
              find-true (is_rule t.entries m p) t.wildcards_table a
                (sym (wild_entry t valid m p x) ∙ em))
            ∙ find-true (is_rule t.entries q r) t.wildcards_table a
                (sym (wild_entry t valid q r (kind ∙ x)) ∙ eq)
      ]

set_data-entry : (t : MatchTable) (a d : ℕ) → ((set_data t a d).entries a).entry_data ≡ d
unfolding set_data
set_data-entry t a d = rw (==_refl a)

module _ (t : MatchTable) (valid : IsValid t) (m : Match) (p : ℕ) where
  update_match_entry-found :
      (d : ℕ) → update_match_entry t m p d ≡ update_found t d (strict_entry t m p)
  unfolding update_match_entry update_exact_match_entry update_wildcards_match_entry strict_entry
  update_match_entry-found d = elim (Bool-cases (exact_match m)) [ inl x ↦ rw x | inr x ↦ rw x ]

  -- For a rule that the strict search does not find, `update_match_entry` returns false and leaves
  -- the tables as they are.
  pub update_match_entry-missing :
      (d : ℕ) → strict_entry t m p ≡ none → update_match_entry t m p d ≡ (false, t)
  unfolding update_found
  update_match_entry-missing d e = update_match_entry-found d ∙ ap (update_found t d) e

  module _ (a : ℕ) (short : IsShort m) (found : strict_entry t m p ≡ some a) where
    -- Another rule leads to another entry.
    other_entry :
        (q : Match) (r b : ℕ)
        → IsShort q
        → same_rule q r m p ≡ false
        → strict_entry t q r ≡ some b
        → (b == a) ≡ false
    other_entry q r b sq other e =
        ground (arith, search-same_rule t valid m p short q r sq a found, e)

    set_data-lookup :
        (d : ℕ) (q : Match) (r : ℕ)
        → IsShort q
        → lookup_match_strict_entry (set_data t a d) q r
          ≡ (if same_rule q r m p then d else lookup_match_strict_entry t q r)
    unfolding lookup_match_strict_entry data_of set_data
    set_data-lookup d q r sq =
        let u = set_data t a d in
        let kept = strict_entry-Keeps t valid q r u (set_data-Keeps t a d) in
        elim (Bool-cases (same_rule q r m p)) [
          | inl s ↦
              ap (data_of u) (kept ∙ same_rule-search t valid m p short q r sq s ∙ found)
              ∙ set_data-entry t a d
              ∙ sym (if-true _ _ s)
          | inr s ↦
              ap (data_of u) kept
              ∙ data_of-same t u (strict_entry t q r)
                  (λ b e. ground (arith, other_entry q r b sq s e))
              ∙ sym (if-false _ _ s)
        ]

    -- the same for an entry that is taken out
    pub removed-lookup :
        (u : MatchTable)
        → u.entries ≡ t.entries
        → (q : Match) (r : ℕ) → IsShort q
        → strict_entry u q r ≡ (if same_rule q r m p then none else strict_entry t q r)
        → lookup_match_strict_entry u q r
          ≡ (if same_rule q r m p then 0 else lookup_match_strict_entry t q r)
    unfolding lookup_match_strict_entry data_of
    removed-lookup u he q r sq h = elim (Bool-cases (same_rule q r m p)) [
      | inl s ↦ ap (data_of u) (h ∙ if-true _ _ s) ∙ sym (if-true _ _ s)
      | inr s ↦
          ap (data_of u) (h ∙ if-false _ _ s)
          ∙ data_of-same t u (strict_entry t q r) (λ b e. ap (λ f. (f b).entry_data) he)
          ∙ sym (if-false _ _ s)
    ]

  -- In well formed tables, for a rule that the strict search leads to an entry,
  -- `update_match_entry` returns true, the tables stay well formed, and a strict lookup finds the
  -- data for the rule and what it found before for every other one. Addresses are numbers of 32
  -- bits.
  pub update_match_entry-changes :
      (d a : ℕ)
      → IsShort m
      → strict_entry t m p ≡ some a
      → (update_match_entry t m p d ≡ (true, set_data t a d))
        × IsValid (set_data t a d)
        × ((q : Match) (r : ℕ)
            → IsShort q
            → lookup_match_strict_entry (set_data t a d) q r
              ≡ (if same_rule q r m p then d else lookup_match_strict_entry t q r))
  unfolding update_found
  update_match_entry-changes d a short e =
      let keeps = set_data-Keeps t a d in
      (
        update_match_entry-found d ∙ ap (update_found t d) e,
        keeps-IsValid t (set_data t a d) valid keeps,
        set_data-lookup a short e d,
      )
