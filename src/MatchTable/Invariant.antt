-- ===== src/MatchTable/Invariant.antt =====
-- When the tables of src/lib/match_table.c are well formed, and that each operation keeps them so.
use trema.Base.{ℕ, ◌≤◌, ◌<◌, ◌≡◌, ◌∙◌, refl, sym, ap, true, false, some, List, [], ◌∷◌, arith, All}
use trema.HashTable.{lookup_hash_entry}
use trema.HashTable.Valid as Hash
use trema.LinkedList.{find_from}
use trema.Match.{compare_match_strict, exact_match}
use trema.Match.Strict.{match_key, is_key}
use trema.MatchTable.{MatchEntry, MatchTable, allocate_match_entry, set_data}
use trema.MatchTable.Ordered.{Distinct, Below, Sorted}
use trema.MatchTable.Rules.{Unique, All-map, is_rule, find-congr}
use trema.MatchTable.Wildcards.{is_same_entry}
use trema.OpenFlow.{Match}

-- an entry of the exact table: allocated, with a match that the key compares equal to
abbrev pub Stores : MatchTable → Match → ℕ → Type 0
Stores t q a =
    (t.live a ≡ true)
    × (a < t.next_address)
    × (exact_match (t.entries a).match ≡ true)
    × (compare_match_strict q (t.entries a).match ≡ true)

-- an entry of the list
abbrev pub Listed : MatchTable → ℕ → Type 0
Listed t a = (t.live a ≡ true) × (a < t.next_address) × (exact_match (t.entries a).match ≡ false)

-- Every stored pointer leads to an allocated entry; the exact table finds an entry by its match,
-- and the list is sorted by priority with no address and no rule twice.
pub record IsValid (t : MatchTable) : Type 0 where
  pub hashed : Hash.IsValid t.exact_table
  pub keyed :
      (q : Match) (a : ℕ)
      → is_key q ≡ true
      → lookup_hash_entry t.exact_table q ≡ some a
      → Stores t q a
  pub listed : All (Listed t) t.wildcards_table
  pub distinct : Distinct t.wildcards_table
  pub sorted : Sorted t.entries t.wildcards_table
  pub unique : Unique t.entries t.wildcards_table

-- Two memories agree on the rules of these addresses.
abbrev pub SameRules : (h k : ℕ → MatchEntry) → List ℕ → Type 0
SameRules h k = All (λ a. ((h a).match ≡ (k a).match) × ((h a).priority ≡ (k a).priority))

pub same_entry_rules :
    (e f : MatchEntry) (m : Match) (p : ℕ)
    → e.match ≡ f.match
    → e.priority ≡ f.priority
    → is_same_entry e m p ≡ is_same_entry f m p
unfolding is_same_entry
same_entry_rules e f m p me pe = cc (me, pe)

module _ (h k : ℕ → MatchEntry) where
  Below-rules : (p : ℕ) (xs : List ℕ) → SameRules h k xs → Below h p xs → Below k p xs
  Below-rules p [] same low = tt
  Below-rules p (a ∷ xs) same low = (ground (arith, same.0, low.0), Below-rules p xs same.1 low.1)

  Sorted-rules : (xs : List ℕ) → SameRules h k xs → Sorted h xs → Sorted k xs
  Sorted-rules [] same s = tt
  Sorted-rules (a ∷ xs) same s =
      (rw (← same.0.1) (Below-rules (h a).priority xs same.1 s.0), Sorted-rules xs same.1 s.1)

  apart-rules :
      (m : Match) (p : ℕ) (xs : List ℕ)
      → SameRules h k xs
      → All (λ b. is_same_entry (h b) m p ≡ false) xs
      → All (λ b. is_same_entry (k b) m p ≡ false) xs
  apart-rules m p [] same out = tt
  apart-rules m p (b ∷ xs) same out = (
    sym (same_entry_rules (h b) (k b) m p same.0.0 same.0.1) ∙ out.0,
    apart-rules m p xs same.1 out.1,
  )

  Unique-rules : (xs : List ℕ) → SameRules h k xs → Unique h xs → Unique k xs
  Unique-rules [] same u = tt
  Unique-rules (a ∷ xs) same u = (
    rw (← same.0.0, ← same.0.1) (apart-rules (h a).match (h a).priority xs same.1 u.0),
    Unique-rules xs same.1 u.1,
  )

  pub find-rules :
      (m : Match) (p : ℕ) (xs : List ℕ)
      → SameRules h k xs
      → find_from (is_rule h m p) xs ≡ find_from (is_rule k m p) xs
  find-rules m p xs same =
      find-congr (is_rule h m p) (is_rule k m p) xs
        (All-map xs (λ b e. same_entry_rules (h b) (k b) m p e.0 e.1) same)

-- Memory may change where the rules of the stored entries and their allocation stay.
pub record Keeps (t u : MatchTable) : Type 0 where
  pub exact_same : u.exact_table ≡ t.exact_table
  pub list_same : u.wildcards_table ≡ t.wildcards_table
  pub rules_same :
      (a : ℕ)
      → a < t.next_address
      → ((t.entries a).match ≡ (u.entries a).match)
        × ((t.entries a).priority ≡ (u.entries a).priority)
  pub live_same : (a : ℕ) → a < t.next_address → u.live a ≡ t.live a
  pub next_grows : t.next_address ≤ u.next_address

module _ (t u : MatchTable) (valid : IsValid t) (keeps : Keeps t u) where
  pub kept_rules : SameRules t.entries u.entries t.wildcards_table
  kept_rules = All-map t.wildcards_table (λ a l. keeps.rules_same a l.1) valid.listed

  kept-Listed : (a : ℕ) → Listed t a → Listed u a
  kept-Listed a l = (
    keeps.live_same a l.1 ∙ l.0,
    omega (arith, keeps.next_grows, l.1),
    sym (ap exact_match (keeps.rules_same a l.1).0) ∙ l.2,
  )

  kept-Stores : (q : Match) (a : ℕ) → Stores t q a → Stores u q a
  kept-Stores q a s =
      let m = (keeps.rules_same a s.1).0 in
      (
        keeps.live_same a s.1 ∙ s.0,
        omega (arith, keeps.next_grows, s.1),
        sym (ap exact_match m) ∙ s.2,
        sym (ap (compare_match_strict q) m) ∙ s.3,
      )

  pub keeps-IsValid : IsValid u
  keeps-IsValid = record {
    hashed = rw keeps.exact_same valid.hashed;
    keyed = λ q a l e.
        kept-Stores q a
          (valid.keyed q a l (sym (ap (λ x. lookup_hash_entry x q) keeps.exact_same) ∙ e));
    listed = rw keeps.list_same (All-map t.wildcards_table kept-Listed valid.listed);
    distinct = rw keeps.list_same valid.distinct;
    sorted =
        rw keeps.list_same
          (Sorted-rules t.entries u.entries t.wildcards_table kept_rules valid.sorted);
    unique =
        rw keeps.list_same
          (Unique-rules t.entries u.entries t.wildcards_table kept_rules valid.unique);
  }

pub allocate-Keeps :
    (t : MatchTable) (m : Match) (p d : ℕ) → Keeps t (allocate_match_entry t m p d).1
unfolding allocate_match_entry
allocate-Keeps t m p d = record {
  exact_same = refl;
  list_same = refl;
  rules_same = λ a lt. ground arith;
  live_same = λ a lt. ground arith;
  next_grows = omega arith;
}

pub set_data-Keeps : (t : MatchTable) (a d : ℕ) → Keeps t (set_data t a d)
unfolding set_data
set_data-Keeps t a d = record {
  exact_same = refl;
  list_same = refl;
  rules_same = λ b lt. ground arith;
  live_same = λ b lt. refl;
  next_grows = omega arith;
}
