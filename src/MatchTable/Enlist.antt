-- ===== src/MatchTable/Enlist.antt =====
-- src/lib/match_table.c: an entry joins the list of wildcard entries, or leaves it.
use trema.Base.{
  ℕ, zero, suc, ◌≡◌, ◌≢◌, ◌∙◌, refl, sym, ap, true, false, none, some, List, [], ◌∷◌, ◌==◌, arith,
  All,
}
use trema.LinkedList.{find_from, delete_next}
use trema.Match.{exact_match}
use trema.Match.Strict.{match_key}
use trema.MatchTable.{MatchEntry, MatchTable, allocate_match_entry, free_match_entry}
use trema.MatchTable.Invariant.{
  Listed, IsValid, SameRules, Keeps, keeps-IsValid, allocate-Keeps, kept_rules, find-rules,
}
use trema.MatchTable.Preserve.{allocate-new}
use trema.MatchTable.Ordered.{
  Distinct, place, insert_point-new, strict_from-find, insert_point-exists, tail-place, head-place,
  before-place,
}
use trema.MatchTable.Rules.{
  All-map, is_rule, find-none-All, All-place, Distinct-place, Sorted-place, Unique-place, without,
  All-without, Distinct-without, Sorted-without, Unique-without,
}
use trema.MatchTable.Wildcards.{
  strict_from, InsertPoint, already_exists, at_tail, at_element, find_insert_point,
  insert_wildcards_at, keep_list, insert_wildcards_from, insert_wildcards_match_entry,
}
use trema.OpenFlow.{Match}

pub All-both {ℓ κ ι μ} :
    {A : Type ℓ} {P : A → Type κ} {Q : A → Type ι} {R : A → Type μ} (xs : List A)
    → ((x : A) → P x → Q x → R x)
    → All P xs
    → All Q xs
    → All R xs
All-both [] f p q = tt
All-both (x ∷ xs) f p q = (f x p.0 q.0, All-both xs f p.1 q.1)

without-absent : (a : ℕ) (xs : List ℕ) → Distinct xs → All (λ b. (b == a) ≡ false) (without a xs)
unfolding delete_next
without-absent a [] d = tt
without-absent a (b ∷ xs) d =
    ground (
      arith,
      without-absent a xs d.1,
      λ (e : b ≡ a). ap (λ y. All (λ c. (c == y) ≡ false) xs) e,
      d.0,
    )

place-rules :
    (h k : ℕ → MatchEntry) (p a : ℕ) (xs : List ℕ)
    → SameRules h k xs
    → place h p a xs ≡ place k p a xs
unfolding place
place-rules h k p a [] same = refl
place-rules h k p a (b ∷ xs) same = ground (arith, place-rules h k p a xs same.1, same.0.1)

module _ (t : MatchTable) (valid : IsValid t) (a : ℕ) where
  pub link_list-IsValid :
      (m : Match) (p : ℕ)
      → (t.entries a).match ≡ m
      → (t.entries a).priority ≡ p
      → Listed t a
      → All (λ b. (b == a) ≡ false) t.wildcards_table
      → All (λ b. is_rule t.entries m p b ≡ false) t.wildcards_table
      → IsValid (record t { wildcards_table = place t.entries p a t.wildcards_table })
  link_list-IsValid m p em ep la fresh new =
      let xs = t.wildcards_table in
      record {
        hashed = valid.hashed;
        keyed = valid.keyed;
        listed = All-place t.entries (Listed t) p a xs la valid.listed;
        distinct = Distinct-place t.entries p a xs valid.distinct fresh;
        sorted = rw (← ep) (Sorted-place t.entries a xs valid.sorted);
        unique = rw (← ep) (Unique-place t.entries a xs valid.unique (rw (em, ep) new));
      }

  pub unlink_list-IsValid :
      Listed t a
      → IsValid (free_match_entry (record t { wildcards_table = without a t.wildcards_table }) a)
  unfolding free_match_entry
  unlink_list-IsValid la =
      let xs = t.wildcards_table in
      record {
        hashed = valid.hashed;
        keyed = λ q b kq e.
            let st = valid.keyed q b kq e in (ground (arith, st.0, st.2, la.2), st.1, st.2, st.3);
        listed =
            All-both (without a xs) (λ b l ne. (ground (arith, l.0), l.1, l.2))
              (All-without (Listed t) a xs valid.listed) (without-absent a xs valid.distinct);
        distinct = Distinct-without a xs valid.distinct;
        sorted = Sorted-without t.entries a xs valid.sorted;
        unique = Unique-without t.entries a xs valid.unique;
      }

-- the table that `insert_wildcards_match_entry` leaves
unfoldable pub enlisted : MatchTable → Match → ℕ → ℕ → MatchTable
enlisted t m p d =
    let u = (allocate_match_entry t m p d).1 in
    record u { wildcards_table = place u.entries p t.next_address t.wildcards_table }

module _ (t : MatchTable) (valid : IsValid t) (m : Match) (p d : ℕ) where
  placed_after :
      place t.entries p t.next_address t.wildcards_table
      ≡ place (allocate_match_entry t m p d).1.entries p t.next_address t.wildcards_table
  placed_after =
      let u = (allocate_match_entry t m p d).1 in
      place-rules t.entries u.entries p t.next_address t.wildcards_table
        (kept_rules t u valid (allocate-Keeps t m p d))

  insert_from :
      (o : InsertPoint)
      → find_insert_point t.entries 0 t.wildcards_table m p ≡ o
      → o ≢ already_exists
      → insert_wildcards_from t m p d o ≡ some (true, enlisted t m p d)
  unfolding insert_wildcards_from insert_wildcards_at enlisted allocate_match_entry keep_list
  insert_from already_exists e ne = absurd (ne refl)
  insert_from at_tail e ne =
      let u = (allocate_match_entry t m p d).1 in
      ap (λ l. some (true, record u { wildcards_table = l }))
        (tail-place t.entries 0 t.wildcards_table m p t.next_address e ∙ placed_after)
  insert_from (at_element zero b) e ne =
      let u = (allocate_match_entry t m p d).1 in
      ap (λ l. some (true, record u { wildcards_table = l }))
        (head-place t.entries t.wildcards_table m p t.next_address b e ∙ placed_after)
  insert_from (at_element (suc i) b) e ne =
      let u = (allocate_match_entry t m p d).1 in
      ap (keep_list u)
        (before-place t.entries t.wildcards_table m p t.next_address i b valid.distinct e)
      ∙ ap (λ l. some (true, record u { wildcards_table = l })) placed_after

  -- An entry that is not in the list yet goes in front of the entries of lower priority.
  pub insert_wildcards-place :
      strict_from t.entries t.wildcards_table m p ≡ none
      → insert_wildcards_match_entry t m p d ≡ some (true, enlisted t m p d)
  unfolding insert_wildcards_match_entry
  insert_wildcards-place e =
      insert_from (find_insert_point t.entries 0 t.wildcards_table m p) refl
        (insert_point-new t.entries 0 t.wildcards_table m p e)

  -- The list is left when it has the entry already.
  pub insert_wildcards-exists :
      (a : ℕ)
      → strict_from t.entries t.wildcards_table m p ≡ some a
      → insert_wildcards_match_entry t m p d ≡ some (false, t)
  unfolding insert_wildcards_match_entry insert_wildcards_from
  insert_wildcards-exists a e =
      ap (insert_wildcards_from t m p d) (insert_point-exists t.entries 0 t.wildcards_table m p a e)

  -- The wildcard entries that there are differ from a new rule, whatever is allocated.
  pub apart_after :
      (u : MatchTable)
      → Keeps t u
      → strict_from t.entries t.wildcards_table m p ≡ none
      → find_from (is_rule u.entries m p) t.wildcards_table ≡ none
  apart_after u keeps e =
      sym (find-rules t.entries u.entries m p t.wildcards_table (kept_rules t u valid keeps))
      ∙ sym (strict_from-find t.entries t.wildcards_table m p valid.sorted)
      ∙ e

  pub enlisted-IsValid :
      exact_match m ≡ false
      → strict_from t.entries t.wildcards_table m p ≡ none
      → IsValid (enlisted t m p d)
  unfolding enlisted allocate_match_entry
  enlisted-IsValid wild e =
      let u = (allocate_match_entry t m p d).1 in
      let n = t.next_address in
      let keeps = allocate-Keeps t m p d in
      let (new, alive, lt) = allocate-new t m p d in
      link_list-IsValid u (keeps-IsValid t u valid keeps) n m p
        (ap (λ (x : MatchEntry). x.match) new) (ap (λ (x : MatchEntry). x.priority) new)
        (alive, lt, ap (λ (x : MatchEntry). exact_match x.match) new ∙ wild)
        (All-map t.wildcards_table (λ b l. ground (arith, l.1)) valid.listed)
        (find-none-All (is_rule u.entries m p) t.wildcards_table (apart_after u keeps e))
