-- ===== src/MatchTable/Find.antt =====
-- src/lib/match_table.c: which entry the strict search finds in well formed tables, before and
-- after an entry joins them or leaves them.
use trema.Base.{
  ℕ, ◌<◌, ◌≡◌, ◌≢◌, ◌∙◌, refl, sym, ap, Bool, true, false, none, some, ◌&&◌, ◌||◌, ◌==◌,
  if◌then◌else◌, arith, ==_symm, Bool-cases, inl, inr,
}
use trema.HashTable.{lookup_hash_entry, insert_hash_entry, delete_hash_entry}
use trema.HashTable.Laws.{lookup-insert, lookup-delete}
use trema.Match.{compare_match_strict, exact_match}
use trema.Match.Strict.{match_key, exact_match_congr, is_key, IsShort}
use trema.MatchTable.{MatchEntry, MatchTable, lookup_exact_match_strict_entry, free_match_entry}
use trema.MatchTable.Invariant.{Listed, IsValid, Keeps, keeps-IsValid, kept_rules, find-rules}
use trema.MatchTable.Preserve.{is_key_of}
use trema.MatchTable.Ordered.{place, strict_from-find}
use trema.MatchTable.Rules.{
  All-map, is_rule, find-All, find-true, find-congr, same_entry_congr, find-place-new,
  find-place-other, find-without, find-without-only, without,
}
use trema.MatchTable.Wildcards.{is_same_entry, strict_from, lookup_wildcards_match_strict_entry}
use trema.TableKey.{compare_congr_left, compare_congr_right}
use trema.OpenFlow.{Match}
use trema.LinkedList.{find_from}
use trema.MatchTable.Operations.{strict_entry}

-- A search for `q` at `r` is a search for the rule `m` at `p`; the priority of an exact match does
-- not count.
unfoldable pub same_rule : (q : Match) (r : ℕ) (m : Match) (p : ℕ) → Bool
same_rule q r m p = compare_match_strict q m && (exact_match m || r == p)

pub exact_entry :
    (t : MatchTable) (q : Match) (r : ℕ)
    → exact_match q ≡ true
    → strict_entry t q r ≡ lookup_hash_entry t.exact_table q
unfolding strict_entry lookup_exact_match_strict_entry
exact_entry t q r e = rw e

-- A search for a wildcard entry reads the list and the entries only.
wild_same :
    (t v : MatchTable) (q : Match) (r : ℕ)
    → exact_match q ≡ false
    → v.entries ≡ t.entries
    → v.wildcards_table ≡ t.wildcards_table
    → strict_entry v q r ≡ strict_entry t q r
unfolding strict_entry lookup_wildcards_match_strict_entry
wild_same t v q r e he le = rw (e, he, le)

pub wild_search :
    (t : MatchTable) (q : Match) (r : ℕ)
    → exact_match q ≡ false
    → strict_entry t q r ≡ strict_from t.entries t.wildcards_table q r
unfolding strict_entry lookup_wildcards_match_strict_entry
wild_search t q r e = rw e

pub wild_entry :
    (t : MatchTable)
    → IsValid t
    → (q : Match) (r : ℕ) → exact_match q ≡ false
    → strict_entry t q r ≡ find_from (is_rule t.entries q r) t.wildcards_table
unfolding strict_entry lookup_wildcards_match_strict_entry
wild_entry t valid q r e = rw e (strict_from-find t.entries t.wildcards_table q r valid.sorted)

module _ (t : MatchTable) (valid : IsValid t) (q : Match) (r : ℕ) where
  -- What the search finds is allocated, and not above the addresses handed out.
  pub strict_entry-live :
      (a : ℕ) → IsShort q → strict_entry t q r ≡ some a → (t.live a ≡ true) × (a < t.next_address)
  strict_entry-live a short e = elim (Bool-cases (exact_match q)) [
    | inl x ↦
        let st = valid.keyed q a (is_key_of q x short) (sym (exact_entry t q r x) ∙ e) in
        (st.0, st.1)
    | inr x ↦
        let l =
          find-All (Listed t) (is_rule t.entries q r) t.wildcards_table a valid.listed
            (sym (wild_entry t valid q r x) ∙ e) in
        (l.0, l.1)
  ]

  -- An exact search leads to an exact entry, every other one to a wildcard entry.
  pub strict_entry-kind :
      (a : ℕ)
      → IsShort q
      → strict_entry t q r ≡ some a
      → exact_match (t.entries a).match ≡ exact_match q
  strict_entry-kind a short e = elim (Bool-cases (exact_match q)) [
    | inl x ↦ (valid.keyed q a (is_key_of q x short) (sym (exact_entry t q r x) ∙ e)).2 ∙ sym x
    | inr x ↦
        (find-All (Listed t) (is_rule t.entries q r) t.wildcards_table a valid.listed
          (sym (wild_entry t valid q r x) ∙ e)).2
        ∙ sym x
  ]

  pub strict_entry-Keeps : (u : MatchTable) → Keeps t u → strict_entry u q r ≡ strict_entry t q r
  strict_entry-Keeps u keeps = elim (Bool-cases (exact_match q)) [
    | inl x ↦
        exact_entry u q r x
        ∙ ap (λ h. lookup_hash_entry h q) keeps.exact_same
        ∙ sym (exact_entry t q r x)
    | inr x ↦
        wild_entry u (keeps-IsValid t u valid keeps) q r x
        ∙ ap (λ l. find_from (is_rule u.entries q r) l) keeps.list_same
        ∙ sym (find-rules t.entries u.entries q r t.wildcards_table (kept_rules t u valid keeps))
        ∙ sym (wild_entry t valid q r x)
  ]

-- Rules that are the same are both exact or both not.
pub same_rule-exact :
    (q : Match) (r : ℕ) (m : Match) (p : ℕ)
    → exact_match m ≡ true
    → same_rule q r m p ≡ compare_match_strict q m
unfolding same_rule
same_rule-exact q r m p x = ground arith

-- Two rules are the same when the second is that of an entry, which the first is tested against.
pub same_rule-entry :
    (e : MatchEntry) (q : Match) (r : ℕ) (m : Match) (p : ℕ)
    → exact_match m ≡ false
    → is_same_entry e m p ≡ true
    → same_rule q r m p ≡ is_same_entry e q r
unfolding same_rule is_same_entry
same_rule-entry e q r m p x h =
    ground (arith, match_key.compare_symm q m, compare_congr_left e.match m q, ==_symm r p)

pub same_rule-congr :
    (e : MatchEntry) (q : Match) (r : ℕ) (m : Match) (p : ℕ)
    → exact_match m ≡ false
    → same_rule q r m p ≡ true
    → is_same_entry e q r ≡ is_same_entry e m p
unfolding same_rule is_same_entry
same_rule-congr e q r m p x h = ground (arith, compare_congr_right e.match q m)

pub same_rule-kind :
    (q : Match) (r : ℕ) (m : Match) (p : ℕ)
    → same_rule q r m p ≡ true
    → exact_match q ≡ exact_match m
unfolding same_rule
same_rule-kind q r m p h = exact_match_congr q m (ground arith)

pub same_rule-apart :
    (q : Match) (r : ℕ) (m : Match) (p : ℕ)
    → exact_match q ≢ exact_match m
    → same_rule q r m p ≡ false
unfolding same_rule
same_rule-apart q r m p ne = ground (arith, exact_match_congr q m)

module _ (t : MatchTable) (valid : IsValid t) (m : Match) (p : ℕ) (q : Match) (r : ℕ) where
  pub strict_entry-link :
      (a : ℕ)
      → is_key m ≡ true
      → exact_match m ≡ true
      → IsShort q
      → strict_entry (record t { exact_table = (insert_hash_entry t.exact_table m a).1 }) q r
        ≡ (if same_rule q r m p then some a else strict_entry t q r)
  strict_entry-link a km xm sq =
      let v = record t { exact_table = (insert_hash_entry t.exact_table m a).1 } in
      elim (Bool-cases (exact_match q)) [
        | inl x ↦
            exact_entry v q r x
            ∙ rw (same_rule-exact q r m p xm, exact_entry t q r x)
                (lookup-insert t.exact_table valid.hashed m a q (is_key_of q x sq) km)
        | inr x ↦ wild_same t v q r x refl refl ∙ rw (same_rule-apart q r m p (λ e. ground arith))
      ]

  pub strict_entry-unlink :
      (a : ℕ)
      → is_key m ≡ true
      → exact_match m ≡ true
      → IsShort q
      → strict_entry
          (free_match_entry (record t { exact_table = (delete_hash_entry t.exact_table m).1 }) a)
          q
          r
        ≡ (if same_rule q r m p then none else strict_entry t q r)
  unfolding free_match_entry
  strict_entry-unlink a km xm sq =
      let v =
        free_match_entry (record t { exact_table = (delete_hash_entry t.exact_table m).1 }) a in
      elim (Bool-cases (exact_match q)) [
        | inl x ↦
            exact_entry v q r x
            ∙ rw (same_rule-exact q r m p xm, exact_entry t q r x)
                (lookup-delete t.exact_table valid.hashed m q (is_key_of q x sq) km)
        | inr x ↦ wild_same t v q r x refl refl ∙ rw (same_rule-apart q r m p (λ e. ground arith))
      ]

  pub same_as :
      (a : ℕ)
      → is_rule t.entries m p a ≡ true
      → is_rule t.entries q r a ≡ true
      → find_from (is_rule t.entries q r) t.wildcards_table
        ≡ find_from (is_rule t.entries m p) t.wildcards_table
  same_as a hm hq = find-congr (is_rule t.entries q r) (is_rule t.entries m p) t.wildcards_table (
      All-map t.wildcards_table
        (λ b l.
          same_entry_congr (t.entries b) (t.entries a) q r hq
          ∙ sym (same_entry_congr (t.entries b) (t.entries a) m p hm))
        valid.listed)

  pub strict_entry-place :
      (a : ℕ)
      → IsValid (record t { wildcards_table = place t.entries p a t.wildcards_table })
      → is_rule t.entries m p a ≡ true
      → exact_match m ≡ false
      → find_from (is_rule t.entries m p) t.wildcards_table ≡ none
      → strict_entry (record t { wildcards_table = place t.entries p a t.wildcards_table }) q r
        ≡ (if same_rule q r m p then some a else strict_entry t q r)
  strict_entry-place a vv rule xm new =
      let v = record t { wildcards_table = place t.entries p a t.wildcards_table } in
      let f = is_rule t.entries q r in
      elim (Bool-cases (exact_match q)) [
        | inl x ↦
            exact_entry v q r x
            ∙ sym (exact_entry t q r x)
            ∙ rw (same_rule-apart q r m p (λ e. ground arith))
        | inr x ↦
            wild_entry v vv q r x
            ∙ rw (same_rule-entry (t.entries a) q r m p xm rule, wild_entry t valid q r x)
                (elim (Bool-cases (f a)) [
                  | inl y ↦
                      find-place-new t.entries f p a t.wildcards_table (same_as a rule y ∙ new)
                      ∙ rw y
                  | inr y ↦ find-place-other t.entries f p a t.wildcards_table y ∙ rw y
                ])
      ]

  pub strict_entry-unlist :
      (a : ℕ)
      → IsValid (free_match_entry (record t { wildcards_table = without a t.wildcards_table }) a)
      → exact_match m ≡ false
      → find_from (is_rule t.entries m p) t.wildcards_table ≡ some a
      → strict_entry
          (free_match_entry (record t { wildcards_table = without a t.wildcards_table }) a)
          q
          r
        ≡ (if same_rule q r m p then none else strict_entry t q r)
  unfolding free_match_entry
  strict_entry-unlist a vv xm found =
      let v = free_match_entry (record t { wildcards_table = without a t.wildcards_table }) a in
      let f = is_rule t.entries q r in
      let rule = find-true (is_rule t.entries m p) t.wildcards_table a found in
      elim (Bool-cases (exact_match q)) [
        | inl x ↦
            exact_entry v q r x
            ∙ sym (exact_entry t q r x)
            ∙ rw (same_rule-apart q r m p (λ e. ground arith))
        | inr x ↦
            wild_entry v vv q r x
            ∙ rw (same_rule-entry (t.entries a) q r m p xm rule, wild_entry t valid q r x)
                (elim (Bool-cases (f a)) [
                  | inl y ↦
                      find-without-only t.entries q r a t.wildcards_table valid.unique
                        (same_as a rule y ∙ found)
                      ∙ rw y
                  | inr y ↦ find-without f a t.wildcards_table y ∙ rw y
                ])
      ]
