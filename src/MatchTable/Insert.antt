-- ===== src/MatchTable/Insert.antt =====
-- src/lib/match_table.c: `insert_match_entry` against the strict search.
use trema.Base.{
  ℕ, ◌≡◌, ◌∙◌, refl, sym, ap, true, false, Option, none, some, if-true, if-false, if◌then◌else◌,
  arith, Bool-cases, inl, inr,
}
use trema.HashTable.{insert_hash_entry}
use trema.Match.{compare_match_strict, exact_match}
use trema.Match.Strict.{match_key, IsShort}
use trema.MatchTable.{
  MatchEntry, MatchTable, allocate_match_entry, add_exact, data_of, insert_exact_match_entry,
  insert_exact_found,
}
use trema.MatchTable.Invariant.{IsValid, keeps-IsValid, allocate-Keeps}
use trema.MatchTable.Preserve.{is_key_of, link_exact-IsValid, allocate-new}
use trema.MatchTable.Wildcards.{is_same_entry, strict_from}
use trema.OpenFlow.{Match}
use trema.MatchTable.Operations.{strict_entry}
use trema.MatchTable.Find.{
  same_rule, strict_entry-live, strict_entry-Keeps, strict_entry-link, strict_entry-place,
  exact_entry, wild_search,
}
use trema.MatchTable.Enlist.{
  enlisted, enlisted-IsValid, apart_after, insert_wildcards-place, insert_wildcards-exists,
}
use trema.MatchTable.Operations.{insert_match_entry, lookup_match_strict_entry}

pub data_of-same :
    (t u : MatchTable) (o : Option ℕ)
    → ((b : ℕ) → o ≡ some b → (u.entries b).entry_data ≡ (t.entries b).entry_data)
    → data_of u o ≡ data_of t o
unfolding data_of
data_of-same t u none same = refl
data_of-same t u (some b) same = same b refl

-- A call that adds the rule `m` at `p` with data `d`: it returns true, the tables stay well formed,
-- and a strict lookup finds `d` for the rule and what it found before for every other one.
abbrev pub Adds : (t : MatchTable) → Match → ℕ → ℕ → MatchTable → Type 0
Adds t m p d u =
    (insert_match_entry t m p d ≡ some (true, u))
    × IsValid u
    × ((q : Match) (r : ℕ)
        → IsShort q
        → lookup_match_strict_entry u q r
          ≡ (if same_rule q r m p then d else lookup_match_strict_entry t q r))

is_rule_self :
    (e : MatchEntry) (m : Match) (p : ℕ) → e.match ≡ m → e.priority ≡ p → is_same_entry e m p ≡ true
unfolding is_same_entry
is_rule_self e m p em ep =
    ground (arith, ap (λ x. compare_match_strict x m) em, match_key.compare_refl m)

module _ (t : MatchTable) (valid : IsValid t) (m : Match) (p d : ℕ) where
  -- what a strict lookup reads when the search finds the new entry for the rule only
  lookup_after :
      (v : MatchTable) (priority : ℕ)
      → v.entries ≡ (allocate_match_entry t m priority d).1.entries
      → (q : Match) (r : ℕ) → IsShort q
      → strict_entry v q r ≡ (if same_rule q r m p then some t.next_address else strict_entry t q r)
      → lookup_match_strict_entry v q r
        ≡ (if same_rule q r m p then d else lookup_match_strict_entry t q r)
  unfolding lookup_match_strict_entry data_of allocate_match_entry
  lookup_after v priority he q r short h = elim (Bool-cases (same_rule q r m p)) [
    | inl s ↦
        ap (data_of v) (h ∙ if-true _ _ s)
        ∙ ap (λ f. (f t.next_address).entry_data) he
        ∙ ap (λ (y : MatchEntry). y.entry_data) (allocate-new t m priority d).0
        ∙ sym (if-true _ _ s)
    | inr s ↦
        ap (data_of v) (h ∙ if-false _ _ s)
        ∙ data_of-same t v (strict_entry t q r) (λ b e.
          ap (λ f. (f b).entry_data) he ∙ ground (arith, strict_entry-live t valid q r b short e))
        ∙ sym (if-false _ _ s)
  ]

  insert_exact-new :
      exact_match m ≡ true
      → IsShort m
      → strict_entry t m p ≡ none
      → (u : MatchTable) × Adds t m p d u
  unfolding insert_match_entry insert_exact_match_entry insert_exact_found add_exact
  insert_exact-new x short e =
      let u = (allocate_match_entry t m 0 d).1 in
      let n = t.next_address in
      let keeps = allocate-Keeps t m 0 d in
      let uv = keeps-IsValid t u valid keeps in
      let (new, alive, lt) = allocate-new t m 0 d in
      let own = ap (λ (y : MatchEntry). y.match) new in
      let km = is_key_of m x short in
      let v = record u { exact_table = (insert_hash_entry u.exact_table m n).1 } in
      (
        v,
        (
          rw (x, sym (exact_entry t m p x) ∙ e),
          link_exact-IsValid u uv m km n
              (
                alive,
                lt,
                ap exact_match own ∙ x,
                ap (compare_match_strict m) own ∙ match_key.compare_refl m,
              )
              own,
          λ q r sq. lookup_after v 0 refl q r sq (
              strict_entry-link u uv m p q r n km x sq
              ∙ ap (λ o. if same_rule q r m p then some n else o)
                  (strict_entry-Keeps t valid q r u keeps)),
        ),
      )

  enlisted-entry :
      exact_match m ≡ false
      → strict_from t.entries t.wildcards_table m p ≡ none
      → (q : Match) (r : ℕ)
      → strict_entry (enlisted t m p d) q r
        ≡ (if same_rule q r m p then some t.next_address else strict_entry t q r)
  unfolding enlisted allocate_match_entry
  enlisted-entry x e q r =
      let u = (allocate_match_entry t m p d).1 in
      let n = t.next_address in
      let keeps = allocate-Keeps t m p d in
      let uv = keeps-IsValid t u valid keeps in
      strict_entry-place u uv m p q r n (enlisted-IsValid t valid m p d x e)
        (is_rule_self (u.entries n) m p (ap (λ (y : MatchEntry). y.match) (allocate-new t m p d).0)
          (ap (λ (y : MatchEntry). y.priority) (allocate-new t m p d).0))
        x (apart_after t valid m p d u keeps e)
      ∙ ap (λ o. if same_rule q r m p then some n else o) (strict_entry-Keeps t valid q r u keeps)

  insert_wild-new :
      exact_match m ≡ false → strict_entry t m p ≡ none → (u : MatchTable) × Adds t m p d u
  unfolding insert_match_entry enlisted
  insert_wild-new x e =
      let none_yet = sym (wild_search t m p x) ∙ e in
      (
        enlisted t m p d,
        (
          if-false _ _ x ∙ insert_wildcards-place t valid m p d none_yet,
          enlisted-IsValid t valid m p d x none_yet,
          λ q r sq. lookup_after (enlisted t m p d) p refl q r sq (enlisted-entry x none_yet q r),
        ),
      )

  -- In well formed tables, for a rule that the strict search does not find, `insert_match_entry`
  -- returns true, the tables stay well formed, and a strict lookup finds the data for the rule and
  -- what it found before for every other one. Addresses are numbers of 32 bits.
  pub insert_match_entry-Adds :
      IsShort m → strict_entry t m p ≡ none → (u : MatchTable) × Adds t m p d u
  insert_match_entry-Adds short e = elim (Bool-cases (exact_match m)) [
    | inl x ↦ insert_exact-new x short e
    | inr x ↦ insert_wild-new x e
  ]

  -- In well formed tables, for a rule that the strict search finds, `insert_match_entry` returns
  -- false and leaves the tables as they are.
  pub insert_match_entry-exists :
      (a : ℕ) → strict_entry t m p ≡ some a → insert_match_entry t m p d ≡ some (false, t)
  unfolding insert_match_entry insert_exact_match_entry insert_exact_found
  insert_match_entry-exists a e = elim (Bool-cases (exact_match m)) [
    | inl x ↦ rw (x, sym (exact_entry t m p x) ∙ e)
    | inr x ↦
        if-false _ _ x ∙ insert_wildcards-exists t valid m p d a (sym (wild_search t m p x) ∙ e)
  ]
