-- ===== src/MatchTable/Preserve.antt =====
-- Each operation of src/lib/match_table.c keeps the tables well formed.
use trema.Base.{
  ℕ, ◌<◌, ◌≡◌, ◌∙◌, sym, ap, true, false, some, ◌==◌, arith, ==_refl, Bool-cases, inl, inr,
}
use trema.HashTable.{lookup_hash_entry, insert_hash_entry, delete_hash_entry}
use trema.HashTable.Laws.{insert-IsValid, delete-IsValid, lookup-insert, lookup-delete}
use trema.Match.{compare_match_strict, exact_match}
use trema.Match.Strict.{match_key, is_key, IsShort}
use trema.MatchTable.{MatchTable, allocate_match_entry, free_match_entry}
use trema.MatchTable.Invariant.{Stores, IsValid}
use trema.MatchTable.Rules.{All-map}
use trema.OpenFlow.{Match}

pub is_key_of : (m : Match) → exact_match m ≡ true → IsShort m → is_key m ≡ true
is_key_of m e s = ground arith

-- the new entry of the table after an allocation
pub allocate-new :
    (t : MatchTable) (m : Match) (p d : ℕ)
    → let u = (allocate_match_entry t m p d).1 in
      (u.entries t.next_address ≡ record { match = m; priority = p; entry_data = d })
      × (u.live t.next_address ≡ true)
      × (t.next_address < u.next_address)
unfolding allocate_match_entry
allocate-new t m p d = (rw (==_refl t.next_address), rw (==_refl t.next_address), omega arith)

module _ (t : MatchTable) (valid : IsValid t) (m : Match) (km : is_key m ≡ true) where
  linked-Stores :
      (a : ℕ)
      → Stores t m a
      → (t.entries a).match ≡ m
      → (q : Match) (b : ℕ) → is_key q ≡ true
      → lookup_hash_entry (insert_hash_entry t.exact_table m a).1 q ≡ some b
      → Stores t q b
  linked-Stores a st own q b kq e =
      let after = sym (lookup-insert t.exact_table valid.hashed m a q kq km) ∙ e in
      elim (Bool-cases (compare_match_strict q m)) [
        | inl same ↦
            let ab : a ≡ b = ground arith in
            (
              ap t.live (sym ab) ∙ st.0,
              omega (arith, st.1),
              ap (λ x. exact_match (t.entries x).match) (sym ab) ∙ st.2,
              ap (λ x. compare_match_strict q (t.entries x).match) (sym ab)
                  ∙ ap (compare_match_strict q) own
                  ∙ same,
            )
        | inr other ↦ valid.keyed q b kq (ground arith)
      ]

  -- A pointer to a stored entry goes into the exact table under its own match.
  pub link_exact-IsValid :
      (a : ℕ)
      → Stores t m a
      → (t.entries a).match ≡ m
      → IsValid (record t { exact_table = (insert_hash_entry t.exact_table m a).1 })
  link_exact-IsValid a st own = record {
    hashed = insert-IsValid t.exact_table valid.hashed m a km;
    keyed = linked-Stores a st own;
    listed = valid.listed;
    distinct = valid.distinct;
    sorted = valid.sorted;
    unique = valid.unique;
  }

  -- Keys that the exact table leads to one entry compare equal.
  pub same_address :
      (a : ℕ) (q : Match)
      → is_key q ≡ true
      → lookup_hash_entry t.exact_table m ≡ some a
      → lookup_hash_entry t.exact_table q ≡ some a
      → compare_match_strict q m ≡ true
  same_address a q kq em eq =
      let sq = valid.keyed q a kq eq in
      let sm = valid.keyed m a km em in
      match_key.compare_trans q (t.entries a).match m sq.3
        (match_key.compare_symm (t.entries a).match m ∙ sm.3)

  unlinked-Stores :
      (a : ℕ)
      → lookup_hash_entry t.exact_table m ≡ some a
      → (q : Match) (b : ℕ) → is_key q ≡ true
      → lookup_hash_entry (delete_hash_entry t.exact_table m).1 q ≡ some b
      → (lookup_hash_entry t.exact_table q ≡ some b) × ((b == a) ≡ false)
  unlinked-Stores a em q b kq e =
      let after = sym (lookup-delete t.exact_table valid.hashed m q kq km) ∙ e in
      elim (Bool-cases (compare_match_strict q m)) [
        | inl same ↦ absurd (ground arith)
        | inr other ↦
            let old : lookup_hash_entry t.exact_table q ≡ some b = ground arith in
            (old, ground (arith, same_address a q kq em, old))
      ]

  pub unlink_exact-IsValid :
      (a : ℕ)
      → lookup_hash_entry t.exact_table m ≡ some a
      → IsValid
          (free_match_entry (record t { exact_table = (delete_hash_entry t.exact_table m).1 }) a)
  unfolding free_match_entry
  unlink_exact-IsValid a em =
      let sm = valid.keyed m a km em in
      record {
        hashed = delete-IsValid t.exact_table valid.hashed m;
        keyed = λ q b kq e.
            let (old, ne) = unlinked-Stores a em q b kq e in
            let st = valid.keyed q b kq old in (ground (arith, st.0), st.1, st.2, st.3);
        listed =
            All-map t.wildcards_table (λ b l. (ground (arith, l.0, l.2, sm.2), l.1, l.2))
              valid.listed;
        distinct = valid.distinct;
        sorted = valid.sorted;
        unique = valid.unique;
      }
